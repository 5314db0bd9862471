-- ===== src/Event/Queue/SyncKeys/Delete.antt =====
-- Taking a key out of the list of those that are down.
use whoa.Base.{
  ℕ, zero, suc, ◌<◌, ◌≤◌, ◌≡◌, refl, sym, ap, ◌∙◌, arith, ◌==◌, not, ◌&&◌, ◌||◌, Bool, true, false,
  List, [], ◌∷◌, ◌++◌, some, length, append_assoc, Bool-cases, inl, inr,
}
use whoa.Base.Removal.{Avoids}
use whoa.Event.Queue.{ExplicitList, ListLaws, Priority, first_of, put_at, delete_keys}
use whoa.Event.Queue.SyncKeys.{has_key, other_keys}

or_false : (b : Bool) → (b || false) ≡ b
or_false true = refl
or_false false = refl

or_true : (b : Bool) → (b || true) ≡ true
or_true true = refl
or_true false = refl

pub other_keys-has_key :
    (keys : ℕ → ℕ) (key k : ℕ) (as' : List ℕ)
    → has_key keys (other_keys keys key as') k ≡ (not (k == key) && has_key keys as' k)
other_keys-has_key keys key k [] = ground arith
other_keys-has_key keys key k (a ∷ as') = let ih = other_keys-has_key keys key k as' in ground arith

pub has_key-append :
    (keys : ℕ → ℕ) (k : ℕ) (p q : List ℕ)
    → has_key keys (p ++ q) k ≡ (has_key keys p k || has_key keys q k)
has_key-append keys k [] q = refl
has_key-append keys k (a ∷ p) q = let ih = has_key-append keys k p q in ground arith

pub other_keys-length :
    (keys : ℕ → ℕ) (key : ℕ) (as' : List ℕ) → length (other_keys keys key as') ≤ length as'
other_keys-length keys key [] = omega arith
other_keys-length keys key (a ∷ as') = let ih = other_keys-length keys key as' in ground arith

module _ (s : ExplicitList) (laws : ListLaws s) (order : Priority) (World : Type 0) where
  open laws use {items}

  pub has_key-put_at :
      (keys : ℕ → ℕ) (n key k : ℕ) (as' : List ℕ)
      → Avoids n as'
      → has_key (put_at s order World n key keys) as' k ≡ has_key keys as' k
  has_key-put_at keys n key k [] h = refl
  has_key-put_at keys n key k (a ∷ as') h =
      let ih = has_key-put_at keys n key k as' h.1 in let ne = h.0 in ground arith

  pub delete_keys_lem :
      (rounds : ℕ) (keys : ℕ → ℕ) (key : ℕ) (down : Bool) (l : s.Links) (p q : List ℕ)
      → items l ≡ p ++ q
      → length q < rounds
      → (l' : s.Links) × (delete_keys s order World rounds keys key (first_of q) down l
          ≡ some (down || has_key keys q key, l'))
        × (items l' ≡ p ++ other_keys keys key q)
  unfolding delete_keys
  delete_keys_lem zero keys key down l p q e h = absurd (omega arith)
  delete_keys_lem (suc rounds) keys key down l p [] e h =
      (l, ap (λ b. some (b, l)) (sym (or_false down)), e)
  delete_keys_lem (suc rounds) keys key down l p (a ∷ q) e h = elim (Bool-cases (keys a == key)) [
    | inl same ↦
        let (follows, left) = laws.delete_lem a l p q e in
        let (l', done, rest) =
          delete_keys_lem rounds keys key true (s.delete_node a l).1 p q left (omega arith) in
        (
          l',
          rw (same, delete_keys, follows) (done ∙ ap (λ b. some (b, l')) (sym (or_true down))),
          rw same rest,
        )
    | inr other ↦
        let follows = laws.next_lem a l p q e in
        let (l', done, rest) =
          delete_keys_lem rounds keys key down l (p ++ (a ∷ [])) q
            (e ∙ sym (append_assoc p (a ∷ []) q)) (omega arith) in
        (
          l',
          rw (other, delete_keys, follows) done,
          rw other (rest ∙ append_assoc p (a ∷ []) (other_keys keys key q)),
        )
  ]
