-- ===== src/Object/Mirror/Masks.antt =====
-- The masks of a message, and the numbers that are read one after another.
use whoa.Base.{
  ℕ, zero, suc, ◌-◌, ◌/◌, ◌<◌, ◌≤◌, ◌≡◌, refl, ap, ◌∙◌, arith, ltb, if◌then◌else◌, Bool, false,
  Bool-cases, inl, inr, none, some, List, [], ◌∷◌, ◌++◌, replicate, length, length-append, get_or,
  not, bit, bit-zero, ◌==◌, ◌%◌,
}
use whoa.Base.Masks.{test_bit_left}
use whoa.Object.DataStore.{DataStore}
use whoa.Object.Mirror.{mask_at, is_mask_bit_set, get_masks, extract_dirty_masks}

-- Whether a message changes a field.
abbrev pub changes : List ℕ → ℕ → Bool
changes masks i = is_mask_bit_set (get_or masks (i / 32) 0) i

-- How many of the fields below one are changed.
abbrev pub count_changes : List ℕ → ℕ → ℕ
count_changes masks zero = 0
count_changes masks (suc i) =
    if changes masks i then suc (count_changes masks i) else count_changes masks i

-- A test for a digit of a mask.
pub is_mask_bit_set-bit : (mask i : ℕ) → is_mask_bit_set mask i ≡ not (bit mask (i % 32) == 0)
is_mask_bit_set-bit mask i = ap not (test_bit_left (i % 32) mask)

pub no_change : (i : ℕ) → is_mask_bit_set 0 i ≡ false
no_change i = is_mask_bit_set-bit 0 i ∙ ap (λ x. not (x == 0)) (bit-zero (i % 32))

pub length-replicate : (n v : ℕ) → length (replicate n v) ≡ n
length-replicate zero v = refl
length-replicate (suc n) v = ap suc (length-replicate n v)

pub get_or-replicate : (n i : ℕ) → get_or {A = ℕ} (replicate n 0) i 0 ≡ 0
get_or-replicate zero i = refl
get_or-replicate (suc n) zero = refl
get_or-replicate (suc n) (suc i) = get_or-replicate n i

get_or_append_right :
    (xs ys : List ℕ) (i : ℕ) → length xs ≤ i → get_or (xs ++ ys) i 0 ≡ get_or ys (i - length xs) 0
get_or_append_right [] ys i h = ap (λ j. get_or ys j 0) (omega arith)
get_or_append_right (x ∷ xs) ys zero h = absurd (omega (arith, h))
get_or_append_right (x ∷ xs) ys (suc i) h =
    get_or_append_right xs ys i (omega (arith, h)) ∙ ap (λ j. get_or ys j 0) (omega arith)

pub mask_at-length :
    (masks : List ℕ) (i : ℕ) → i < length masks → mask_at masks i ≡ some (get_or masks i 0)
mask_at-length masks i h = elim (Bool-cases (ltb i (length masks))) [
  | inl there ↦ rw there refl
  | inr out ↦ absurd (ground (arith, h, out))
]

module _ (d : DataStore) where
  -- A message after so many numbers of 32 digits were read.
  abbrev pub words : ℕ → d.Store → d.Store
  words zero s = s
  words (suc k) s = (d.get 4 (words k s)).1

  words_first : (k : ℕ) (s : d.Store) → words k (d.get 4 s).1 ≡ words (suc k) s
  words_first zero s = refl
  words_first (suc k) s = ap (λ t. (d.get 4 t).1) (words_first k s)

  length-get_masks : (n : ℕ) (s : d.Store) → length (get_masks d n s).0 ≡ n
  unfolding get_masks
  length-get_masks zero s = refl
  length-get_masks (suc n) s = ap suc (length-get_masks n (d.get 4 s).1)

  get_masks-words : (n : ℕ) (s : d.Store) → (get_masks d n s).1 ≡ words n s
  unfolding get_masks
  get_masks-words zero s = refl
  get_masks-words (suc n) s = get_masks-words n (d.get 4 s).1 ∙ words_first n s

  -- What the count and the masks of a message come to, when there are not too many.
  pub record Extracted (s : d.Store) (m : ℕ × List ℕ) (t : d.Store) : Type 0 where
    pub counted : m.0 ≡ (d.get 1 s).0
    pub count_le : m.0 ≤ 42
    pub all_masks : length m.1 ≡ 42
    pub absent : (i : ℕ) → m.0 ≤ i → get_or m.1 i 0 ≡ 0
    pub read : t ≡ words m.0 (d.get 1 s).1

  pub extract_too_many :
      (s : d.Store) → 42 < (d.get 1 s).0 → extract_dirty_masks d s ≡ (none, (d.get 1 s).1)
  unfolding extract_dirty_masks
  extract_too_many s h = elim (Bool-cases (ltb 42 (d.get 1 s).0)) [
    | inl over ↦ rw over refl
    | inr fine ↦ absurd (ground (arith, h, fine))
  ]

  -- With no more than 42 masks, all 42 are filled: those behind the ones present are zero.
  pub extract_dirty_masks_lem :
      (s : d.Store)
      → (d.get 1 s).0 ≤ 42
      → (m : ℕ × List ℕ) × ((extract_dirty_masks d s).0 ≡ some m)
        × Extracted s m (extract_dirty_masks d s).1
  unfolding extract_dirty_masks
  extract_dirty_masks_lem s h = elim (Bool-cases (ltb 42 (d.get 1 s).0)) [
    | inl over ↦ absurd (ground (arith, h, over))
    | inr fine ↦
        let n = (d.get 1 s).0 in
        let masks = (get_masks d n (d.get 1 s).1).0 in
        let len = length-get_masks n (d.get 1 s).1 in
        rw fine (
          (n, masks ++ replicate (42 - n) 0),
          refl,
          record {
            counted = refl;
            count_le = h;
            all_masks =
                length-append masks (replicate (42 - n) 0)
                ∙ omega (arith, len, length-replicate (42 - n) 0, h);
            absent = λ i k.
                get_or_append_right masks (replicate (42 - n) 0) i (omega (arith, k, len))
                ∙ get_or-replicate (42 - n) (i - length masks);
            read = get_masks-words n (d.get 1 s).1;
          },
        )
  ]
