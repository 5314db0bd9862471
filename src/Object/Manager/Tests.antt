-- ===== src/Object/Manager/Tests.antt =====
-- Tables and lists in memory, on which the manager runs.
use whoa.Base.{
  not, ℕ, suc, ◌+◌, ◌≤◌, ◌≡◌, ◌≢◌, ◌==◌, refl, ap, ◌∙◌, arith, inl, inr, if◌then◌else◌, Bool, true,
  false, Bool-cases, List, [], ◌∷◌, ◌++◌, append-nil, Option, some,
}
use whoa.Object.Manager.{Storm, ObjectList, remove, without}
use whoa.Object.Manager.Lists.{list_code, list_code_ne, list_code_lt}
use whoa.Object.Manager.Tables.{StormLaws, first}

-- The links made so far, the last first, each of an object to a list, or to none (0).
abbrev History : Type 0
History = List (ℕ × ℕ)

abbrev members_of : ObjectList → History → List ℕ
members_of l [] = []
members_of l ((c, a) ∷ s) = remove a (members_of l s) ++ (if c == list_code l then a ∷ [] else [])

abbrev times : ℕ → List ℕ → ℕ
times a [] = 0
times a (b ∷ bs) = (if b == a then 1 else 0) + times a bs

times-append :
    (member : ℕ) (front back : List ℕ)
    → times member (front ++ back) ≡ times member front + times member back
times-append member [] back = omega arith
times-append member (m ∷ front) back =
    let rest = times-append member front back in omega (arith, rest)

times-remove : (a b : ℕ) (xs : List ℕ) → times a (remove b xs) ≡ (if a == b then 0 else times a xs)
times-remove a b [] = ground arith
times-remove a b (x ∷ xs) = elim (Bool-cases (x == b)) [
  | inl same ↦ rw same (times-remove a b xs ∙ ground (arith, same))
  | inr other ↦ rw other (ground (arith, other, times-remove a b xs))
]

remove_absent : (a : ℕ) (xs : List ℕ) → times a xs ≡ 0 → remove a xs ≡ xs
remove_absent a [] h = refl
remove_absent a (x ∷ xs) h = elim (Bool-cases (x == a)) [
  | inl same ↦ absurd (ground (arith, h, same))
  | inr other ↦ rw other (ap (λ r. x ∷ r) (remove_absent a xs (ground (arith, h, other))))
]

times-members_of :
    (l l' : ObjectList) (a : ℕ) (s : History)
    → (list_code l == list_code l') ≡ false
    → times a (members_of l s) + times a (members_of l' s) ≤ 1
times-members_of l l' a [] apart = omega arith
times-members_of l l' a ((c, b) ∷ s) apart =
    let one =
      times-append a (remove b (members_of l s)) (if c == list_code l then b ∷ [] else []) in
    let two =
      times-append a (remove b (members_of l' s)) (if c == list_code l' then b ∷ [] else []) in
    ground (
      arith,
      apart,
      one,
      two,
      times-remove a b (members_of l s),
      times-remove a b (members_of l' s),
      times-members_of l l' a s apart,
    )

pub no_code : (l : ObjectList) → (0 == list_code l) ≡ false
no_code l = let some_code = list_code_lt l in ground arith

pub members_off :
    (l : ObjectList) (a : ℕ) (s : History) → members_of l ((0, a) ∷ s) ≡ remove a (members_of l s)
members_off l a s = rw (no_code l) (append-nil (remove a (members_of l s)))

abbrev has_member : ObjectList → ℕ → History → Bool
has_member l a s = not (times a (members_of l s) == 0)

abbrev pub storage : Storm
storage = record {
  Table = ℕ → Option ℕ;
  ptr = λ k t. t k;
  insert = λ a k t j. if j == k then some a else t j;
  unlink_object = λ a t j. without a (t j);
  Links = History;
  head = λ l s. first (members_of l s);
  is_linked = has_member;
  link_to_tail = λ l a s. (list_code l, a) ∷ s;
  unlink = λ a s. (0, a) ∷ s;
  unlink_node = λ l a s. (0, a) ∷ s;
}

pub tail_lem :
    (l : ObjectList) (a : ℕ) (s : History)
    → members_of l ((list_code l, a) ∷ s) ≡ remove a (members_of l s) ++ (a ∷ [])
tail_lem l a s = let self : (list_code l == list_code l) ≡ true = ground arith in rw self refl

pub other_lem :
    (l l' : ObjectList) (a : ℕ) (s : History)
    → l ≢ l'
    → members_of l' ((list_code l, a) ∷ s) ≡ remove a (members_of l' s)
other_lem l l' a s apart = rw (list_code_ne l l' apart) (append-nil (remove a (members_of l' s)))

pub unlinked_lem : (l : ObjectList) (a : ℕ) (s : History) → has_member l a ((0, a) ∷ s) ≡ false
unlinked_lem l a s =
    ground (arith, ap (times a) (members_off l a s), times-remove a a (members_of l s))

times-members_of_one : (l : ObjectList) (a : ℕ) (s : History) → times a (members_of l s) ≤ 1
times-members_of_one l a [] = omega arith
times-members_of_one l a ((c, b) ∷ s) =
    let one =
      times-append a (remove b (members_of l s)) (if c == list_code l then b ∷ [] else []) in
    ground (arith, one, times-remove a b (members_of l s), times-members_of_one l a s)

pub linked_once_lem :
    (l : ObjectList) (a : ℕ) (rest : List ℕ) (s : History)
    → members_of l s ≡ a ∷ rest
    → remove a rest ≡ rest
linked_once_lem l a rest s e =
    let here : times a (members_of l s) ≡ suc (times a rest) = ap (times a) e ∙ ground arith in
    remove_absent a rest (omega (arith, times-members_of_one l a s, here))

pub linked_here_lem :
    (l l' : ObjectList) (a : ℕ) (rest : List ℕ) (s : History)
    → members_of l s ≡ a ∷ rest
    → l ≢ l'
    → remove a (members_of l' s) ≡ members_of l' s
linked_here_lem l l' a rest s e apart =
    let total = times-members_of l l' a s (list_code_ne l l' apart) in
    let here : times a (members_of l s) ≡ suc (times a rest) = ap (times a) e ∙ ground arith in
    remove_absent a (members_of l' s) (omega (arith, total, here))

abbrev pub storage_laws : StormLaws storage
storage_laws = record {
  ptr-insert = λ a k j t h. refl;
  ptr-unlink_object = λ a j t. refl;
  members = members_of;
  head_lem = λ l s. refl;
  members_tail = tail_lem;
  members_other = other_lem;
  members-unlink = members_off;
  linked_once = linked_once_lem;
  linked_here = linked_here_lem;
  unlinked = unlinked_lem;
  members-unlink_node = λ l l' a s here. members_off l' a s;
}
