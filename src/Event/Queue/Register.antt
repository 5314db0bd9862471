-- ===== src/Event/Queue/Register.antt =====
-- The order of the handlers of an event.
use whoa.Base.{
  ℕ, zero, suc, ◌<◌, ◌≡◌, refl, sym, ap, ◌∙◌, arith, ◌==◌, not, ◌||◌, Bool, true, false, List, [],
  ◌∷◌, ◌++◌, map, some, length, append_assoc, append-nil, Bool-cases, inl, inr, All,
}
use mathlib.Core.Path.{subst}
use whoa.Base.Removal.{Avoids, remove-Avoids}
use whoa.Event.Queue.Entries.{map-put_at}
use whoa.Event.Queue.{
  ExplicitList, ListLaws, Priority, EvtContext, EvtHandler, first_of, put_at, find_place, register,
}

-- The order of floats that are numbers.
pub record PriorityLaws (order : Priority) : Type 0 where
  pub asym : (a b : order.Value) → order.less a b ≡ true → order.less b a ≡ false
  pub negative :
      (a b c : order.Value)
      → order.less a b ≡ false
      → order.less b c ≡ false
      → order.less a c ≡ false

module _ (s : ExplicitList) (laws : ListLaws s) (order : Priority) (World : Type 0) where
  open laws use {items}

  -- One handler may stand before another: it has no lower priority, or one of the two is a marker.
  abbrev pub may_precede : EvtHandler s order World → EvtHandler s order World → Bool
  may_precede g h = g.marker || h.marker || not (order.less g.priority h.priority)

  abbrev pub IsSorted : (ℕ → EvtHandler s order World) → List ℕ → Type 0
  IsSorted handlers [] = Unit
  IsSorted handlers (a ∷ as') =
      All (λ b. may_precede (handlers a) (handlers b) ≡ true) as' × IsSorted handlers as'

  -- A handler that a new one is put behind.
  abbrev pub passed_over : order.Value → EvtHandler s order World → Bool
  passed_over priority h = order.less priority h.priority || h.marker

  -- Nothing follows, or first a handler that is no marker and of no higher priority.
  abbrev pub IsPlace : (ℕ → EvtHandler s order World) → order.Value → List ℕ → Type 0
  IsPlace handlers priority [] = Unit
  IsPlace handlers priority (a ∷ as') = passed_over priority (handlers a) ≡ false

  All-append : (P : ℕ → Type 0) (p q : List ℕ) → All P p → All P q → All P (p ++ q)
  All-append P [] q h k = k
  All-append P (x ∷ p) q h k = (h.0, All-append P p q h.1 k)

  All-insert : (P : ℕ → Type 0) (p q : List ℕ) (n : ℕ) → P n → All P (p ++ q) → All P (p ++ (n ∷ q))
  All-insert P [] q n h k = (h, k)
  All-insert P (x ∷ p) q n h k = (k.0, All-insert P p q n h k.1)

  find_place_lem :
      (rounds : ℕ) (c : EvtContext s order World) (l : s.Links) (priority : order.Value)
      (p q : List ℕ)
      → items l ≡ p ++ q
      → All (λ a. passed_over priority (c.handlers a) ≡ true) p
      → length q < rounds
      → (p' q' : List ℕ) × (items l ≡ p' ++ q')
        × (find_place s order World rounds c l priority (first_of q) ≡ some (first_of q'))
        × All (λ a. passed_over priority (c.handlers a) ≡ true) p'
        × IsPlace c.handlers priority q'
  unfolding find_place
  find_place_lem zero c l priority p q e h k = absurd (omega arith)
  find_place_lem (suc rounds) c l priority p [] e h k = (p, [], e, refl, h, tt)
  find_place_lem (suc rounds) c l priority p (a ∷ q) e h k =
      elim (Bool-cases (passed_over priority (c.handlers a))) [
        | inl on ↦
            let (p', q', e', found, passed, place) =
              find_place_lem rounds c l priority (p ++ (a ∷ [])) q
                (e ∙ sym (append_assoc p (a ∷ []) q))
                (All-append (λ b. passed_over priority (c.handlers b) ≡ true) p (a ∷ []) h (on, tt))
                (omega arith) in
            (p', q', e', rw (on, find_place, laws.next_lem a l p q e) found, passed, place)
        | inr here ↦ (p, a ∷ q, e, rw (here, find_place) refl, h, here)
      ]

  -- Entries elsewhere do not matter.
  All-put_at :
      (P : EvtHandler s order World → Type 0) (handlers : ℕ → EvtHandler s order World) (n : ℕ)
      (g : EvtHandler s order World) (as' : List ℕ)
      → Avoids n as'
      → All (λ a. P (handlers a)) as'
      → All (λ a. P (put_at s order World n g handlers a)) as'
  All-put_at P handlers n g [] k h = tt
  All-put_at P handlers n g (a ∷ as') k h =
      let other : (a == n) ≡ false = let ne = k.0 in ground arith in
      (rw other h.0, All-put_at P handlers n g as' k.1 h.1)

  IsSorted-put_at :
      (handlers : ℕ → EvtHandler s order World) (n : ℕ) (g : EvtHandler s order World)
      (as' : List ℕ)
      → Avoids n as'
      → IsSorted handlers as'
      → IsSorted (put_at s order World n g handlers) as'
  IsSorted-put_at handlers n g [] k h = tt
  IsSorted-put_at handlers n g (a ∷ as') k h =
      let other : (a == n) ≡ false = let ne = k.0 in ground arith in
      (
        rw other (All-put_at (λ t. may_precede (handlers a) t ≡ true) handlers n g as' k.1 h.0),
        IsSorted-put_at handlers n g as' k.1 h.1,
      )

  module _ (numbers : PriorityLaws order) where
    follows :
        (g a b : EvtHandler s order World)
        → passed_over g.priority a ≡ false
        → may_precede a b ≡ true
        → may_precede g b ≡ true
    follows g a b h o =
        let chain = numbers.negative g.priority a.priority b.priority in ground (arith, h, o)

    precedes :
        (a n : EvtHandler s order World) → passed_over n.priority a ≡ true → may_precede a n ≡ true
    precedes a n h = let turn = numbers.asym n.priority a.priority in ground (arith, h)

    before_rest :
        (handlers : ℕ → EvtHandler s order World) (g : EvtHandler s order World) (q : List ℕ)
        → IsPlace handlers g.priority q
        → IsSorted handlers q
        → All (λ b. may_precede g (handlers b) ≡ true) q
    before_rest handlers g [] h k = tt
    before_rest handlers g (a ∷ q) h k = (ground (arith, h), rest_of q k.0)
      where
        rest_of :
            (as' : List ℕ)
            → All (λ b. may_precede (handlers a) (handlers b) ≡ true) as'
            → All (λ b. may_precede g (handlers b) ≡ true) as'
        rest_of [] o = tt
        rest_of (b ∷ as') o = (follows g (handlers a) (handlers b) h o.0, rest_of as' o.1)

    insert-IsSorted :
        (handlers : ℕ → EvtHandler s order World) (n : ℕ) (g : EvtHandler s order World)
        (p q : List ℕ)
        → handlers n ≡ g
        → All (λ a. passed_over g.priority (handlers a) ≡ true) p
        → IsPlace handlers g.priority q
        → IsSorted handlers (p ++ q)
        → IsSorted handlers (p ++ (n ∷ q))
    insert-IsSorted handlers n g [] q e h k o = (rw e (before_rest handlers g q k o), o)
    insert-IsSorted handlers n g (a ∷ p) q e h k o = (
      All-insert (λ b. may_precede (handlers a) (handlers b) ≡ true) p q n
          (rw e (precedes (handlers a) g h.0)) o.0,
      insert-IsSorted handlers n g p q e h.1 k o.1,
    )

    linked_place :
        (n : ℕ) (l : s.Links) (p q : List ℕ)
        → Avoids n (items l)
        → items l ≡ p ++ q
        → items (s.link_before n (first_of q) l) ≡ p ++ (n ∷ q)
    linked_place n l p [] away e =
        laws.before_tail n l
        ∙ ap (λ t. t ++ (n ∷ [])) (remove-Avoids n (items l) away ∙ e ∙ append-nil p)
    linked_place n l p (a ∷ q) away e =
        laws.before_node n a l p q (remove-Avoids n (items l) away ∙ e)

    -- With priorities that are numbers, more rounds than handlers of the event, and a list of it in
    -- which no handler stands before one of higher priority, markers left aside: a handler is
    -- registered. It is put into the list before the first handler that is no marker and of no higher
    -- priority, or else at the end, the others' entries are as before, and no handler stands before one
    -- of higher priority in the list then.
    pub register_lem :
        (rounds : ℕ) (c : EvtContext s order World) (id handler param : ℕ) (priority : order.Value)
        → length (items (c.queue_handler_list id)) < rounds
        → IsSorted c.handlers (items (c.queue_handler_list id))
        → (c' : EvtContext s order World) × (n : ℕ) × (p q : List ℕ) × (register s order World
              rounds c id handler param priority
            ≡ some c')
          × (items (c.queue_handler_list id) ≡ p ++ q)
          × (items (c'.queue_handler_list id) ≡ p ++ (n ∷ q))
          × (c'.handlers n
              ≡ record { func = handler; param = param; priority = priority; marker = false })
          × (map c'.handlers (p ++ q) ≡ map c.handlers (p ++ q))
          × All (λ a. passed_over priority (c'.handlers a) ≡ true) p
          × IsPlace c'.handlers priority q
          × IsSorted c'.handlers (items (c'.queue_handler_list id))
    unfolding register
    register_lem rounds c id handler param priority enough sorted =
        let l = c.queue_handler_list id in
        let n = s.fresh l in
        let away = laws.fresh_lem l in
        let entry : EvtHandler s order World = record {
          func = handler;
          param = param;
          priority = priority;
          marker = false;
        } in
        let handlers = put_at s order World n entry c.handlers in
        let filled = record c { handlers = handlers } in
        let start = laws.head_lem l in
        let (p, q, split, found, passed, place) =
          find_place_lem rounds filled l priority [] (items l) refl tt enough in
        let l' = s.link_before n (first_of q) l in
        let linked : items l' ≡ p ++ (n ∷ q) = linked_place n l p q away split in
        let same : handlers n ≡ entry = let e : (n == n) ≡ true = ground arith in rw e refl in
        let placed : items (put_at s order World id l' c.queue_handler_list id) ≡ p ++ (n ∷ q) =
          let e : (id == id) ≡ true = ground arith in rw e linked in
        (
          record filled { queue_handler_list = put_at s order World id l' c.queue_handler_list },
          n,
          p,
          q,
          rw (start, register, found) refl,
          split,
          placed,
          same,
          ap (λ t. map handlers t) (sym split)
              ∙ map-put_at s order World c.handlers n entry (items l) away
              ∙ ap (λ t. map c.handlers t) split,
          passed,
          place,
          subst (IsSorted handlers) (sym placed) (
              insert-IsSorted handlers n entry p q same passed place (
                subst (IsSorted handlers) split
                  (IsSorted-put_at c.handlers n entry (items l) away sorted))),
        )
