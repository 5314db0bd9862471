-- ===== src/Event/Queue/Unregister.antt =====
-- src/event/Queue.cpp, IEvtQueueUnregister. After a handler is deleted the loop takes the node that
-- follows and goes on to the next of this one: the next of a null pointer is none.
pub mod Lists
use whoa.Base.{
  ℕ, zero, suc, ◌-◌, ◌<◌, ◌≤◌, ◌≡◌, refl, sym, ap, ◌∙◌, arith, leb, ltb, ◌==◌, not, ◌&&◌, ◌||◌,
  bit_and, if◌then◌else◌, Bool, true, false, List, [], ◌∷◌, ◌++◌, Option, none, some, length,
  append_assoc, Bool-cases, inl, inr,
}
use mathlib.Core.Path.{subst}
use whoa.Base.Fallible.{◌>>=◌}
use whoa.Event.Queue.{ExplicitList, ListLaws, Priority, EvtContext, EvtHandler, first_of, put_at}
use whoa.Event.Queue.Entries.{put_at_same, put_at_other}

-- EVENTIDS
abbrev pub event_ids : ℕ
event_ids = 36

module _ (s : ExplicitList) (order : Priority) (World : Type 0) where
  -- Whether a handler is to be deleted.
  unfoldable pub node_matched : ℕ → ℕ → ℕ → EvtHandler s order World → Bool
  node_matched handler param flags h =
      ((bit_and flags 2 == 0 || h.func == handler) && (bit_and flags 4 == 0 || h.param == param))
      && not h.marker

  -- The loop over a list from a node on; none for the next of null, or when the rounds are used up.
  pub unregister_from : ℕ → (ℕ → Bool) → Option ℕ → s.Links → Option s.Links
  unregister_from zero matched place l = none
  unregister_from (suc rounds) matched none l = some l
  unregister_from (suc rounds) matched (some a) l = elim (matched a) [
    | false ↦ unregister_from rounds matched (s.next a l) l
    | true ↦ elim (s.delete_node a l).0 [
      | none ↦ none
      | some b ↦
          unregister_from rounds matched (s.next b (s.delete_node a l).1) (s.delete_node a l).1
    ]
  ]

  -- The loop over so many lists, from one on.
  pub unregister_lists :
      ℕ → ℕ → (ℕ → Bool) → (ℕ → Bool) → EvtContext s order World → Option (EvtContext s order World)
  unregister_lists zero rounds listed matched c = some c
  unregister_lists (suc q) rounds listed matched c =
      let id = event_ids - suc q in
      let l = c.queue_handler_list id in
      elim (listed id) [
        | false ↦ unregister_lists q rounds listed matched c
        | true ↦ unregister_from rounds matched (s.head l) l >>= λ l'.
            unregister_lists q rounds listed matched
              (record c { queue_handler_list = put_at s order World id l' c.queue_handler_list })
      ]

  pub unregister : ℕ → EvtContext s order World → ℕ → ℕ → ℕ → ℕ → Option (EvtContext s order World)
  unregister rounds c id handler param flags =
      unregister_lists event_ids rounds (λ q. bit_and flags 1 == 0 || q == id)
        (λ a. node_matched handler param flags (c.handlers a)) c

-- No two that match follow one another, and the last does not match.
abbrev pub is_spaced : (ℕ → Bool) → List ℕ → Bool
is_spaced matched [] = true
is_spaced matched (a ∷ []) = not (matched a)
is_spaced matched (a ∷ b ∷ as') = not (matched a && matched b) && is_spaced matched (b ∷ as')

-- Those that do not match.
abbrev pub unmatched : (ℕ → Bool) → List ℕ → List ℕ
unmatched matched [] = []
unmatched matched (a ∷ as') = if matched a then unmatched matched as' else a ∷ unmatched matched as'

module _ (s : ExplicitList) (laws : ListLaws s) (order : Priority) (World : Type 0) where
  open laws use {items}

  pub unregister_from_lem :
      (rounds : ℕ) (matched : ℕ → Bool) (l : s.Links) (p q : List ℕ)
      → items l ≡ p ++ q
      → length q < rounds
      → is_spaced matched q ≡ true
      → (l' : s.Links) × (unregister_from s order World rounds matched (first_of q) l ≡ some l')
        × (items l' ≡ p ++ unmatched matched q)
  unfolding unregister_from
  unregister_from_lem zero matched l p q e h k = absurd (omega arith)
  unregister_from_lem (suc rounds) matched l p [] e h k = (l, refl, e)
  unregister_from_lem (suc rounds) matched l p (a ∷ []) e h k =
      let stays : matched a ≡ false = ground (arith, k) in
      let (l', done, left) =
        unregister_from_lem rounds matched l (p ++ (a ∷ [])) []
          (e ∙ sym (append_assoc p (a ∷ []) [])) (omega arith) refl in
      (
        l',
        rw (stays, unregister_from, laws.next_lem a l p [] e) done,
        rw stays (left ∙ append_assoc p (a ∷ []) []),
      )
  unregister_from_lem (suc rounds) matched l p (a ∷ b ∷ q) e h k = elim (Bool-cases (matched a)) [
    | inl goes ↦
        let stays : matched b ≡ false = ground (arith, k, goes) in
        let (follows, rest) = laws.delete_lem a l p (b ∷ q) e in
        let spaced : is_spaced matched q ≡ true = tail_spaced b q (ground (arith, k)) in
        let l1 = (s.delete_node a l).1 in
        let (l', done, left) =
          unregister_from_lem rounds matched l1 (p ++ (b ∷ [])) q
            (rest ∙ sym (append_assoc p (b ∷ []) q)) (omega arith) spaced in
        (
          l',
          rw (goes, unregister_from, follows, laws.next_lem b l1 p q rest) done,
          rw (goes, stays) (left ∙ append_assoc p (b ∷ []) (unmatched matched q)),
        )
    | inr stays ↦
        let (l', done, left) =
          unregister_from_lem rounds matched l (p ++ (a ∷ [])) (b ∷ q)
            (e ∙ sym (append_assoc p (a ∷ []) (b ∷ q))) (omega arith) (ground (arith, k)) in
        (
          l',
          rw (stays, unregister_from, laws.next_lem a l p (b ∷ q) e) done,
          rw stays (left ∙ append_assoc p (a ∷ []) (unmatched matched (b ∷ q))),
        )
  ]
    where
      tail_spaced :
          (x : ℕ) (xs : List ℕ) → is_spaced matched (x ∷ xs) ≡ true → is_spaced matched xs ≡ true
      tail_spaced x [] o = refl
      tail_spaced x (y ∷ ys) o = ground arith
