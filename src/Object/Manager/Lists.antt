-- ===== src/Object/Manager/Lists.antt =====
-- The lists that an object's link can be in, numbered, and what linking does to their members.
use whoa.Base.{
  ℕ, ◌≡◌, ◌≢◌, ◌==◌, ◌<◌, refl, ap, ◌∙◌, sym, arith, inl, inr, if◌then◌else◌, Bool, true, false,
  Bool-cases, List, [], ◌∷◌, ◌++◌, ◌||◌,
}
use whoa.Object.Types.{ObjectTypeId}
use whoa.Object.Manager.{Storm, ObjectList, remove, unlink_visible}
use whoa.Object.Manager.Tables.{StormLaws}

abbrev type_code : ObjectTypeId → ℕ
type_code ObjectTypeId.object = 3
type_code ObjectTypeId.item = 4
type_code ObjectTypeId.container = 5
type_code ObjectTypeId.unit = 6
type_code ObjectTypeId.player = 7
type_code ObjectTypeId.game_object = 8
type_code ObjectTypeId.dynamic_object = 9
type_code ObjectTypeId.corpse = 10
type_code ObjectTypeId.num_client_object_types = 11

abbrev pub list_code : ObjectList → ℕ
list_code ObjectList.visible = 1
list_code ObjectList.reenabled = 2
list_code (ObjectList.lazy_cleanup id) = type_code id

abbrev list_of : ℕ → ObjectList
list_of n =
    if n == 1
    then ObjectList.visible
    else if n == 2
    then ObjectList.reenabled
    else if n == 3
    then ObjectList.lazy_cleanup ObjectTypeId.object
    else if n == 4
    then ObjectList.lazy_cleanup ObjectTypeId.item
    else if n == 5
    then ObjectList.lazy_cleanup ObjectTypeId.container
    else if n == 6
    then ObjectList.lazy_cleanup ObjectTypeId.unit
    else if n == 7
    then ObjectList.lazy_cleanup ObjectTypeId.player
    else if n == 8
    then ObjectList.lazy_cleanup ObjectTypeId.game_object
    else if n == 9
    then ObjectList.lazy_cleanup ObjectTypeId.dynamic_object
    else if n == 10
    then ObjectList.lazy_cleanup ObjectTypeId.corpse
    else ObjectList.lazy_cleanup ObjectTypeId.num_client_object_types

list_of-list_code : (l : ObjectList) → list_of (list_code l) ≡ l
list_of-list_code ObjectList.visible = refl
list_of-list_code ObjectList.reenabled = refl
list_of-list_code (ObjectList.lazy_cleanup ObjectTypeId.object) = refl
list_of-list_code (ObjectList.lazy_cleanup ObjectTypeId.item) = refl
list_of-list_code (ObjectList.lazy_cleanup ObjectTypeId.container) = refl
list_of-list_code (ObjectList.lazy_cleanup ObjectTypeId.unit) = refl
list_of-list_code (ObjectList.lazy_cleanup ObjectTypeId.player) = refl
list_of-list_code (ObjectList.lazy_cleanup ObjectTypeId.game_object) = refl
list_of-list_code (ObjectList.lazy_cleanup ObjectTypeId.dynamic_object) = refl
list_of-list_code (ObjectList.lazy_cleanup ObjectTypeId.corpse) = refl
list_of-list_code (ObjectList.lazy_cleanup ObjectTypeId.num_client_object_types) = refl

pub list_code_eq : (l l' : ObjectList) → (list_code l == list_code l') ≡ true → l ≡ l'
list_code_eq l l' same =
    let e : list_code l ≡ list_code l' = ground (arith, same) in
    sym (list_of-list_code l) ∙ ap list_of e ∙ list_of-list_code l'

pub list_code_lt : (l : ObjectList) → 0 < list_code l
list_code_lt ObjectList.visible = omega arith
list_code_lt ObjectList.reenabled = omega arith
list_code_lt (ObjectList.lazy_cleanup ObjectTypeId.object) = omega arith
list_code_lt (ObjectList.lazy_cleanup ObjectTypeId.item) = omega arith
list_code_lt (ObjectList.lazy_cleanup ObjectTypeId.container) = omega arith
list_code_lt (ObjectList.lazy_cleanup ObjectTypeId.unit) = omega arith
list_code_lt (ObjectList.lazy_cleanup ObjectTypeId.player) = omega arith
list_code_lt (ObjectList.lazy_cleanup ObjectTypeId.game_object) = omega arith
list_code_lt (ObjectList.lazy_cleanup ObjectTypeId.dynamic_object) = omega arith
list_code_lt (ObjectList.lazy_cleanup ObjectTypeId.corpse) = omega arith
list_code_lt (ObjectList.lazy_cleanup ObjectTypeId.num_client_object_types) = omega arith

pub list_code_ne : (l l' : ObjectList) → l ≢ l' → (list_code l == list_code l') ≡ false
list_code_ne l l' apart = elim (Bool-cases (list_code l == list_code l')) [
  | inl same ↦ absurd (apart (list_code_eq l l' same))
  | inr other ↦ other
]

abbrev pub elem : ℕ → List ℕ → Bool
elem k [] = false
elem k (g ∷ gs) = k == g || elem k gs

pub elem-remove :
    (a b : ℕ) (l : List ℕ) → elem b (remove a l) ≡ (if b == a then false else elem b l)
elem-remove a b [] = ground arith
elem-remove a b (c ∷ l) = elim (Bool-cases (c == a)) [
  | inl same ↦ rw same (elem-remove a b l ∙ ground (arith, same))
  | inr other ↦ rw other (ground (arith, other, elem-remove a b l))
]

elem-append : (a b : ℕ) (l : List ℕ) → elem b (l ++ (a ∷ [])) ≡ (elem b l || b == a)
elem-append a b [] = ground arith
elem-append a b (c ∷ l) = ground (arith, elem-append a b l)

module _ (storm : Storm) (laws : StormLaws storm) where
  open laws use {members}

  pub elem-unlink :
      (l : ObjectList) (a b : ℕ) (s : storm.Links)
      → elem b (members l (storm.unlink a s)) ≡ (if b == a then false else elem b (members l s))
  elem-unlink l a b s = ap (elem b) (laws.members-unlink l a s) ∙ elem-remove a b (members l s)

  -- An object at the end of a list is in this one only; the others are where they were.
  pub elem-link_to_tail :
      (l l' : ObjectList) (a b : ℕ) (s : storm.Links)
      → elem b (members l' (storm.link_to_tail l a s))
        ≡ (if b == a then list_code l == list_code l' else elem b (members l' s))
  elem-link_to_tail l l' a b s = elim (Bool-cases (list_code l == list_code l')) [
    | inl same ↦
        let here = list_code_eq l l' same in
        ap (λ k. elem b (members k (storm.link_to_tail l a s))) (sym here)
        ∙ ap (elem b) (laws.members_tail l a s)
        ∙ elem-append a b (remove a (members l s))
        ∙ ground (arith, same, elem-remove a b (members l s))
        ∙ ap (λ k. if b == a then list_code l == list_code k else elem b (members k s)) here
    | inr other ↦
        let apart : l ≢ l' = λ e. ne l l' other e in
        rw other (ap (elem b) (laws.members_other l l' a s apart) ∙ elem-remove a b (members l' s))
  ]
    where
      ne : (l l' : ObjectList) → (list_code l == list_code l') ≡ false → l ≢ l'
      ne l l' other e =
          let same : list_code l ≡ list_code l' = ap list_code e in
          absurd (ground (arith, other, same))

  pub elem-unlink_visible :
      (l : ObjectList) (a b : ℕ) (s : storm.Links)
      → (b == a) ≡ false
      → elem b (members l (unlink_visible storm a s)) ≡ elem b (members l s)
  elem-unlink_visible l a b s other = elim (Bool-cases (storm.is_linked ObjectList.visible a s)) [
    | inl linked ↦ rw linked (
        ap (elem b) (laws.members-unlink_node ObjectList.visible l a s linked)
        ∙ elem-remove a b (members l s)
        ∙ rw other refl)
    | inr not_linked ↦ rw not_linked refl
  ]
