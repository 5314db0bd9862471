-- ===== src/Object/Manager/Tables.antt =====
-- The two tables of objects: what the code relies on, and moving an object between them.
use whoa.Base.{
  ℕ, ◌≡◌, ◌≢◌, ◌==◌, refl, ap, ◌∙◌, sym, arith, ◌⊎◌, inl, inr, if◌then◌else◌, true, false,
  Bool-cases, List, [], ◌∷◌, ◌++◌, Option, none, some, Option-cases,
}
use mathlib.Core.Option.{some-injective, none-ne-some}
use whoa.Object.ClientObject.{ClientObject}
use whoa.Object.Manager.{Storm, ObjectList, remove, without, on_heap, with_key}

abbrev pub first : List ℕ → Option ℕ
first [] = none
first (a ∷ rest) = some a

-- Tables of unique keys, and lists that share one link.
pub record StormLaws (storm : Storm) : Type 0 where
  pub ptr-insert :
      (a k j : ℕ) (t : storm.Table)
      → storm.ptr k t ≡ none
      → storm.ptr j (storm.insert a k t) ≡ (if j == k then some a else storm.ptr j t)
  pub ptr-unlink_object :
      (a j : ℕ) (t : storm.Table)
      → storm.ptr j (storm.unlink_object a t) ≡ without a (storm.ptr j t)
  pub members : ObjectList → storm.Links → List ℕ
  pub head_lem : (l : ObjectList) (s : storm.Links) → storm.head l s ≡ first (members l s)
  pub members_tail :
      (l : ObjectList) (a : ℕ) (s : storm.Links)
      → members l (storm.link_to_tail l a s) ≡ remove a (members l s) ++ (a ∷ [])
  pub members_other :
      (l l' : ObjectList) (a : ℕ) (s : storm.Links)
      → l ≢ l'
      → members l' (storm.link_to_tail l a s) ≡ remove a (members l' s)
  pub members-unlink :
      (l : ObjectList) (a : ℕ) (s : storm.Links)
      → members l (storm.unlink a s) ≡ remove a (members l s)
  -- An object has one link, which is in a list once.
  pub linked_once :
      (l : ObjectList) (a : ℕ) (rest : List ℕ) (s : storm.Links)
      → members l s ≡ a ∷ rest
      → remove a rest ≡ rest
  pub linked_here :
      (l l' : ObjectList) (a : ℕ) (rest : List ℕ) (s : storm.Links)
      → members l s ≡ a ∷ rest
      → l ≢ l'
      → remove a (members l' s) ≡ members l' s
  pub unlinked :
      (l : ObjectList) (a : ℕ) (s : storm.Links) → storm.is_linked l a (storm.unlink a s) ≡ false
  -- The one link of an object that is in a list is taken out.
  pub members-unlink_node :
      (l l' : ObjectList) (a : ℕ) (s : storm.Links)
      → storm.is_linked l a s ≡ true
      → members l' (storm.unlink_node l a s) ≡ remove a (members l' s)

without_lem : (a b : ℕ) → without a (some b) ≡ (if b == a then none else some b)
without_lem a b = refl

module _ (storm : Storm) (laws : StormLaws storm) where
  -- The objects of a table have the keys that they are under.
  abbrev pub Keyed : storm.Table → (ℕ → ClientObject) → Type 0
  Keyed t heap = (k a : ℕ) → storm.ptr k t ≡ some a → (heap a).key ≡ k

  -- Two tables of objects under their keys, without a common key.
  pub record Split (t u : storm.Table) (heap : ℕ → ClientObject) : Type 0 where
    pub apart : (k : ℕ) → (storm.ptr k t ≡ none) ⊎ (storm.ptr k u ≡ none)
    pub keyed : Keyed t heap
    pub keyed_other : Keyed u heap

  pub Split-swap : (t u : storm.Table) (heap : ℕ → ClientObject) → Split t u heap → Split u t heap
  Split-swap t u heap s = record {
    apart = λ k. elim (s.apart k) [ inl a ↦ inr a | inr b ↦ inl b ];
    keyed = s.keyed_other;
    keyed_other = s.keyed;
  }

  -- A change of an object that keeps its key.
  pub Split-heap :
      (t u : storm.Table) (heap heap' : ℕ → ClientObject)
      → ((b : ℕ) → (heap' b).key ≡ (heap b).key)
      → Split t u heap
      → Split t u heap'
  Split-heap t u heap heap' same s = record {
    apart = s.apart;
    keyed = λ k a e. same a ∙ s.keyed k a e;
    keyed_other = λ k a e. same a ∙ s.keyed_other k a e;
  }

  pub with_key_same :
      (a k : ℕ) (heap : ℕ → ClientObject) (b : ℕ)
      → (heap a).key ≡ k
      → (on_heap storm a (with_key storm k) heap b).key ≡ (heap b).key
  with_key_same a k heap b e = elim (Bool-cases (b == a)) [
    | inl here ↦
        let same : b ≡ a = ground (arith, here) in rw here (sym (ap (λ c. (heap c).key) same ∙ e))
    | inr other ↦ rw other refl
  ]

  pub unlink_object_lem :
      (t : storm.Table) (heap : ℕ → ClientObject) (k a j : ℕ)
      → Keyed t heap
      → storm.ptr k t ≡ some a
      → storm.ptr j (storm.unlink_object a t) ≡ (if j == k then none else storm.ptr j t)
  unlink_object_lem t heap k a j keyed e = elim (Bool-cases (j == k)) [
    | inl here ↦
        let same : j ≡ k = ground (arith, here) in
        let self : (a == a) ≡ true = ground arith in
        rw here (
          laws.ptr-unlink_object a j t
          ∙ ap (λ i. without a (storm.ptr i t)) same
          ∙ rw (e, self) refl)
    | inr other ↦ rw other (
        laws.ptr-unlink_object a j t ∙ elim (Option-cases (storm.ptr j t)) [
          | inl absent ↦ rw absent refl
          | inr there ↦ elim (Bool-cases (there.0 == a)) [
            | inl same ↦
                let here : there.0 ≡ a = ground (arith, same) in
                absurd (
                  ground (
                    arith,
                    other,
                    sym (keyed j there.0 there.1) ∙ ap (λ c. (heap c).key) here ∙ keyed k a e,
                  ))
            | inr apart ↦ rw (there.1, apart) refl
          ]
        ])
  ]

  -- The table that an object moves to has its key then.
  pub insert_lem :
      (t u : storm.Table) (heap : ℕ → ClientObject) (k a j : ℕ)
      → Split t u heap
      → storm.ptr k t ≡ some a
      → storm.ptr j (storm.insert a k u) ≡ (if j == k then some a else storm.ptr j u)
  insert_lem t u heap k a j s e =
      laws.ptr-insert a k j u
        (elim (s.apart k) [ inl gone ↦ absurd (none-ne-some a (sym gone ∙ e)) | inr gone ↦ gone ])

  -- Moving an object from one table to the other.
  pub Split-move :
      (t u : storm.Table) (heap : ℕ → ClientObject) (k a : ℕ)
      → Split t u heap
      → storm.ptr k t ≡ some a
      → Split
          (storm.unlink_object a t)
          (storm.insert a k u)
          (on_heap storm a (with_key storm k) heap)
  Split-move t u heap k a s e =
      let left = λ (j : ℕ). unlink_object_lem t heap k a j s.keyed e in
      let right = λ (j : ℕ). insert_lem t u heap k a j s e in
      Split-heap _ _ heap _ (λ b. with_key_same a k heap b (s.keyed k a e))
        (record {
          apart = λ j. elim (Bool-cases (j == k)) [
            | inl here ↦ inl (rw here at (left j))
            | inr other ↦ elim (s.apart j) [
              | inl gone ↦ inl (rw other at (left j) ∙ gone)
              | inr gone ↦ inr (rw other at (right j) ∙ gone)
            ]
          ];
          keyed = λ j b e'. elim (Bool-cases (j == k)) [
            | inl here ↦ absurd (none-ne-some b (sym (rw here at (left j)) ∙ e'))
            | inr other ↦ s.keyed j b (sym (rw other at (left j)) ∙ e')
          ];
          keyed_other = λ j b e'. elim (Bool-cases (j == k)) [
            | inl here ↦
                let same : a ≡ b = some-injective a b (sym (rw here at (right j)) ∙ e') in
                let at_k : j ≡ k = ground (arith, here) in
                ap (λ c. (heap c).key) (sym same) ∙ s.keyed k a e ∙ sym at_k
            | inr other ↦ s.keyed_other j b (sym (rw other at (right j)) ∙ e')
          ];
        })

  -- Taking an object out of a table.
  pub Split-unlink :
      (t u : storm.Table) (heap : ℕ → ClientObject) (k a : ℕ)
      → Split t u heap
      → storm.ptr k u ≡ some a
      → Split t (storm.unlink_object a u) heap
  Split-unlink t u heap k a s e =
      let right = λ (j : ℕ). unlink_object_lem u heap k a j s.keyed_other e in
      record {
        apart = λ j. elim (Bool-cases (j == k)) [
          | inl here ↦ inr (rw here at (right j))
          | inr other ↦ elim (s.apart j) [
            | inl gone ↦ inl gone
            | inr gone ↦ inr (rw other at (right j) ∙ gone)
          ]
        ];
        keyed = s.keyed;
        keyed_other = λ j b e'. elim (Bool-cases (j == k)) [
          | inl here ↦ absurd (none-ne-some b (sym (rw here at (right j)) ∙ e'))
          | inr other ↦ s.keyed_other j b (sym (rw other at (right j)) ∙ e')
        ];
      }
