-- ===== src/Event/Queue/Unregister/Lists.antt =====
-- Taking handlers out of all lists.
use whoa.Base.{
  ℕ, zero, suc, ◌-◌, ◌<◌, ◌≤◌, ◌≡◌, refl, sym, ap, ◌∙◌, arith, leb, ltb, ◌==◌, ◌&&◌, ◌||◌, bit_and,
  if◌then◌else◌, Bool, true, false, List, [], some, length, Bool-cases, inl, inr,
}
use mathlib.Core.Path.{subst}
use whoa.Event.Queue.{ExplicitList, ListLaws, Priority, EvtContext, put_at}
use whoa.Event.Queue.Entries.{put_at_same, put_at_other}
use whoa.Event.Queue.Unregister.{
  event_ids, node_matched, unregister_lists, unregister, is_spaced, unmatched, unregister_from_lem,
}

module _ (s : ExplicitList) (laws : ListLaws s) (order : Priority) (World : Type 0) where
  open laws use {items}

  -- The lists of the loop that are looked through, from some on.
  abbrev is_visited : ℕ → (ℕ → Bool) → ℕ → Bool
  is_visited q listed j = leb (event_ids - q) j && (ltb j event_ids && listed j)

  visited_suc :
      (q : ℕ) (listed : ℕ → Bool) (j : ℕ)
      → suc q ≤ event_ids
      → (j == event_ids - suc q) ≡ false
      → is_visited q listed j ≡ is_visited (suc q) listed j
  visited_suc q listed j h ne =
      let same : leb (event_ids - q) j ≡ leb (event_ids - suc q) j = ground (arith, h, ne) in
      ap (λ b. b && (ltb j event_ids && listed j)) same

  visited_here :
      (q : ℕ) (listed : ℕ → Bool)
      → suc q ≤ event_ids
      → is_visited (suc q) listed (event_ids - suc q) ≡ listed (event_ids - suc q)
  visited_here q listed h =
      let low : leb (event_ids - suc q) (event_ids - suc q) ≡ true = ground arith in
      let high : ltb (event_ids - suc q) event_ids ≡ true = ground arith in rw (low, high) refl

  visited_past :
      (q : ℕ) (listed : ℕ → Bool)
      → suc q ≤ event_ids
      → is_visited q listed (event_ids - suc q) ≡ false
  visited_past q listed h =
      let low : leb (event_ids - q) (event_ids - suc q) ≡ false = ground (arith, h) in rw low refl

  visited_else :
      (q : ℕ) (listed : ℕ → Bool) (j : ℕ)
      → suc q ≤ event_ids
      → is_visited q listed j ≡ true
      → (j == event_ids - suc q) ≡ false
  visited_else q listed j h v = ground (arith, h, v)

  -- What is left of a list, whether it is looked through or not.
  abbrev left_of : Bool → (ℕ → Bool) → s.Links → List ℕ
  left_of visited matched l = if visited then unmatched matched (items l) else items l

  -- A round's list and the others.
  join_lists :
      (q : ℕ) (listed matched : ℕ → Bool) (c c' : EvtContext s order World) (f : ℕ → s.Links)
      → suc q ≤ event_ids
      → ((j : ℕ) → (j == event_ids - suc q) ≡ false → f j ≡ c.queue_handler_list j)
      → items (f (event_ids - suc q))
        ≡ left_of (listed (event_ids - suc q)) matched (c.queue_handler_list (event_ids - suc q))
      → ((j : ℕ) → items (c'.queue_handler_list j) ≡ left_of (is_visited q listed j) matched (f j))
      → (j : ℕ)
      → items (c'.queue_handler_list j)
        ≡ left_of (is_visited (suc q) listed j) matched (c.queue_handler_list j)
  join_lists q listed matched c c' f h others here rest j =
      let id = event_ids - suc q in
      let at_id : items (c'.queue_handler_list id)
          ≡ left_of (is_visited (suc q) listed id) matched (c.queue_handler_list id) =
        rest id
        ∙ ap (λ b. left_of b matched (f id)) (visited_past q listed h)
        ∙ here
        ∙ ap (λ b. left_of b matched (c.queue_handler_list id)) (sym (visited_here q listed h)) in
      elim (Bool-cases (j == id)) [
        | inl e ↦
            let same : id ≡ j = ground (arith, e) in
            subst
              (λ k.
                items (c'.queue_handler_list k)
                ≡ left_of (is_visited (suc q) listed k) matched (c.queue_handler_list k))
              same at_id
        | inr ne ↦
            rest j
            ∙ ap (left_of (is_visited q listed j) matched) (others j ne)
            ∙ ap (λ b. left_of b matched (c.queue_handler_list j)) (visited_suc q listed j h ne)
      ]

  record Cleared (q : ℕ) (listed matched : ℕ → Bool) (c c' : EvtContext s order World)
      : Type 0 where
    lists :
        (j : ℕ)
        → items (c'.queue_handler_list j) ≡ (
            if is_visited q listed j
            then unmatched matched (items (c.queue_handler_list j))
            else items (c.queue_handler_list j))
    handlers : c'.handlers ≡ c.handlers

  unregister_lists_lem :
      (q rounds : ℕ) (listed matched : ℕ → Bool) (c : EvtContext s order World)
      → q ≤ event_ids
      → ((j : ℕ)
          → is_visited q listed j ≡ true
          → (length (items (c.queue_handler_list j)) < rounds)
            × (is_spaced matched (items (c.queue_handler_list j)) ≡ true))
      → (c' : EvtContext s order World) × (unregister_lists s order World q rounds listed matched c
          ≡ some c')
        × Cleared q listed matched c c'
  unfolding unregister_lists
  unregister_lists_lem zero rounds listed matched c h k = (
    c,
    refl,
    record {
      lists = λ j. let out : is_visited 0 listed j ≡ false = ground arith in rw out refl;
      handlers = refl;
    },
  )
  unregister_lists_lem (suc q) rounds listed matched c h k =
      let id = event_ids - suc q in
      let l = c.queue_handler_list id in
      let start = laws.head_lem l in
      elim (Bool-cases (listed id)) [
        | inl yes_listed ↦
            let (few, spaced) = k id (visited_here q listed h ∙ yes_listed) in
            let (l', done, left) =
              unregister_from_lem s laws order World rounds matched l [] (items l) refl few
                spaced in
            let c1 = record c {
              queue_handler_list = put_at s order World id l' c.queue_handler_list;
            } in
            let here = put_at_same s order World id l' c.queue_handler_list in
            let others = λ (j : ℕ) (ne : (j == id) ≡ false).
              put_at_other s order World id j l' c.queue_handler_list ne in
            let (c', rest, cleared) =
              unregister_lists_lem q rounds listed matched c1 (omega (arith, h)) (λ j v.
                let ne = visited_else q listed j h v in
                subst (λ t. (length (items t) < rounds) × (is_spaced matched (items t) ≡ true))
                  (sym (others j ne)) (k j (sym (visited_suc q listed j h ne) ∙ v))) in
            (
              c',
              rw (yes_listed, unregister_lists, start, done) rest,
              record {
                lists =
                    join_lists q listed matched c c' c1.queue_handler_list h others
                      (ap items here ∙ left ∙ ap (λ b. left_of b matched l) (sym yes_listed))
                      cleared.lists;
                handlers = cleared.handlers;
              },
            )
        | inr not_listed ↦
            let (c', rest, cleared) =
              unregister_lists_lem q rounds listed matched c (omega (arith, h))
                (λ j v. k j (sym (visited_suc q listed j h (visited_else q listed j h v)) ∙ v)) in
            (
              c',
              rw (not_listed, unregister_lists) rest,
              record {
                lists =
                    join_lists q listed matched c c' c.queue_handler_list h (λ j ne. refl)
                      (ap (λ b. left_of b matched l) (sym not_listed)) cleared.lists;
                handlers = cleared.handlers;
              },
            )
      ]

  -- Handlers are taken out, of one event or of all, by their function, their parameter or both: where in
  -- each of these lists no two that match follow one another and the last does not match, and there are
  -- more rounds than handlers, the loops end and take no next of null. Of the lists of the 36 events these
  -- lose exactly the handlers that match and are no markers; the others, and the entries, are as before.
  pub unregister_lem :
      (rounds : ℕ) (c : EvtContext s order World) (id handler param flags : ℕ)
      → ((j : ℕ)
          → j < event_ids
          → (bit_and flags 1 == 0 || j == id) ≡ true
          → (length (items (c.queue_handler_list j)) < rounds)
            × (is_spaced
                  (λ a. node_matched s order World handler param flags (c.handlers a))
                  (items (c.queue_handler_list j))
                ≡ true))
      → (c' : EvtContext s order World) × (unregister s order World rounds c id handler param flags
          ≡ some c')
        × ((j : ℕ)
            → items (c'.queue_handler_list j) ≡ (
                if ltb j event_ids && (bit_and flags 1 == 0 || j == id)
                then unmatched
                    (λ a. node_matched s order World handler param flags (c.handlers a))
                    (items (c.queue_handler_list j))
                else items (c.queue_handler_list j)))
        × (c'.handlers ≡ c.handlers)
  unfolding unregister
  unregister_lem rounds c id handler param flags h =
      let listed = λ (q : ℕ). (bit_and flags 1 == 0 || q == id) in
      let matched = λ (a : ℕ). node_matched s order World handler param flags (c.handlers a) in
      let (c', done, cleared) =
        unregister_lists_lem event_ids rounds listed matched c (omega arith)
          (λ j v. h j (ground (arith, v)) (ground (arith, v))) in
      (
        c',
        done,
        λ j.
            let all : leb (event_ids - event_ids) j ≡ true = ground arith in
            cleared.lists j
            ∙ ap
                (λ b. left_of (b && (ltb j event_ids && listed j)) matched (c.queue_handler_list j))
                all,
        cleared.handlers,
      )
