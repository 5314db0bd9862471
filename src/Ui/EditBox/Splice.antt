-- ===== src/Ui/EditBox/Splice.antt =====
-- A text put into the buffer of another.
use whoa.Base.{
  ℕ, ◌+◌, ◌-◌, ◌<◌, ◌≤◌, ◌≡◌, refl, sym, ap, ◌∙◌, arith, ltb, leb, if◌then◌else◌, List, [], ◌∷◌,
  ◌++◌, none, some, take, drop, length, take-append, drop-append, length-append, length-drop,
  length-take, take-append-drop, append_assoc, le→leb, lt→ltb, true, false,
}
use whoa.Ui.EditBox.{copy_at, copy_within, parts_overlap, splice}
use whoa.Ui.EditBox.TextInfo.{write_at-middle}

copy_at-middle :
    (p q r source : List ℕ) (i : ℕ)
    → i ≡ length p
    → length source ≡ length q
    → copy_at (p ++ (q ++ r)) i source ≡ some (p ++ (source ++ r))
unfolding copy_at
copy_at-middle p q r source i e f =
    let fits : leb (length p + length q) (length (p ++ (q ++ r))) ≡ true =
      le→leb _ _ (omega (arith, length-append p (q ++ r), length-append q r)) in
    let behind : drop (length p + length q) (p ++ (q ++ r)) ≡ r =
      ap (λ n. drop n (p ++ (q ++ r))) (sym (length-append p q))
      ∙ ap (drop (length (p ++ q))) (sym (append_assoc p q r))
      ∙ drop-append (p ++ q) r in
    rw (e, f, fits, behind, take-append p (q ++ r), copy_at) refl

copy_within-middle :
    (a b rest : List ℕ) (n : ℕ)
    → n + length b ≤ length (b ++ rest)
    → length b ≤ n
    → copy_within (a ++ (b ++ rest)) (length a + n) (length a) (length b)
      ≡ some ((a ++ take n (b ++ rest)) ++ (b ++ drop (length b) (drop n (b ++ rest))))
unfolding copy_within
copy_within-middle a b rest n h clear =
    let s = b ++ rest in
    let front = a ++ take n s in
    let over = take (length b) (drop n s) in
    let behind = drop (length b) (drop n s) in
    let size : length (a ++ s) ≡ length a + length s = length-append a s in
    let fits : leb (length a + length b) (length (a ++ s)) ≡ true =
      le→leb _ _ (omega (arith, size, h)) in
    let picked : take (length b) (drop (length a) (a ++ s)) ≡ b =
      ap (take (length b)) (drop-append a s) ∙ take-append b rest in
    let place : length a + n ≡ length front =
      omega (arith, length-append a (take n s), length-take n s, h) in
    let wide : length b ≡ length over =
      omega (arith, length-take (length b) (drop n s), length-drop n s, h) in
    let whole : a ++ s ≡ front ++ (over ++ behind) =
      ap (◌++◌ a) (sym (take-append-drop n s))
      ∙ sym (append_assoc a (take n s) (drop n s))
      ∙ ap (◌++◌ front) (sym (take-append-drop (length b) (drop n s))) in
    let disjoint : parts_overlap (length a + n) (length a) (length b) ≡ false = ground arith in
    rw (disjoint, fits, copy_within, picked)
      (ap (λ t. copy_at t (length a + n) b) whole
        ∙ copy_at-middle front over behind b (length a + n) place wide)

-- The part behind the cursor is moved, if there is one: a gap of so many bytes is before it.
moved_lem :
    (a b rest : List ℕ) (n : ℕ)
    → n + length b + 1 ≤ length (b ++ rest)
    → length b ≤ n
    → (q r : List ℕ) × (length q ≡ n)
      × (0 < length r)
      × (n + length r ≡ length rest)
      × ((if ltb (length a) (length a + length b)
            then copy_within
                (a ++ (b ++ rest))
                (length a + n)
                (length a)
                (length a + length b - length a)
            else some (a ++ (b ++ rest)))
          ≡ some (a ++ (q ++ (b ++ r))))
moved_lem a [] rest n h clear =
    let stays : ltb (length a) (length a + 0) ≡ false = ground arith in
    let size : length (drop n rest) ≡ length rest - n = length-drop n rest in
    (
      take n rest,
      drop n rest,
      omega (arith, length-take n rest, h),
      omega (arith, size, h),
      omega (arith, size, h),
      rw (stays) (ap (λ t. some (a ++ t)) (sym (take-append-drop n rest))),
    )
moved_lem a (x ∷ b) rest n h clear =
    let s = (x ∷ b) ++ rest in
    let size = length (x ∷ b) in
    let behind = drop size (drop n s) in
    let left : 0 < length behind = omega (arith, length-drop size (drop n s), length-drop n s, h) in
    let moves : ltb (length a) (length a + size) ≡ true = lt→ltb _ _ (omega arith) in
    let count : length a + size - length a ≡ size = omega arith in
    (
      take n s,
      behind,
      omega (arith, length-take n s, h),
      left,
      omega (arith, length-drop size (drop n s), length-drop n s, h, length-append (x ∷ b) rest),
      rw (moves, count)
          (copy_within-middle a (x ∷ b) rest n (omega (arith, h)) clear
            ∙ ap some (append_assoc a (take n s) ((x ∷ b) ++ behind))),
    )

-- Where the part behind the cursor is longer than the string, it is copied over itself.
pub splice_overlap :
    (text str : List ℕ) (text_length at : ℕ)
    → at + length str < text_length
    → splice text text_length at str ≡ none
unfolding splice copy_within
splice_overlap text str text_length at h =
    let moves : ltb at text_length ≡ true = lt→ltb _ _ (omega arith) in
    let overlap : parts_overlap (at + length str) at (text_length - at) ≡ true = ground arith in
    rw (splice, moves, copy_within, overlap) refl

-- A text put between two parts of another, with room for its bytes and a terminating zero.
pub splice_lem :
    (a b rest str : List ℕ)
    → length str + length b + 1 ≤ length (b ++ rest)
    → length b ≤ length str
    → (rest' : List ℕ) × (splice (a ++ (b ++ rest)) (length a + length b) (length a) str
        ≡ some ((a ++ (str ++ b)) ++ (0 ∷ rest')))
      × (length ((a ++ (str ++ b)) ++ (0 ∷ rest')) ≡ length (a ++ (b ++ rest)))
unfolding splice
splice_lem a b rest str h clear =
    let (q, r, wide, left, moved_size, moved) = moved_lem a b rest (length str) h clear in
    let copied = copy_at-middle a q (b ++ r) str (length a) refl (sym wide) in
    let place : length a + length b + length str ≡ length (a ++ (str ++ b)) =
      omega (arith, length-append a (str ++ b), length-append str b) in
    let (x, rest', e) = head_of r left in
    let regroup : a ++ (str ++ (b ++ r)) ≡ (a ++ (str ++ b)) ++ (x ∷ rest') =
      ap (λ t. a ++ (str ++ (b ++ t))) e
      ∙ ap (◌++◌ a) (sym (append_assoc str b (x ∷ rest')))
      ∙ sym (append_assoc a (str ++ b) (x ∷ rest')) in
    (
      rest',
      rw (moved, splice, copied, regroup, place) (write_at-middle (a ++ (str ++ b)) rest' x 0),
      omega (
        arith,
        place,
        length-append (a ++ (str ++ b)) (0 ∷ rest'),
        ap length e,
        moved_size,
        length-append a (b ++ rest),
        length-append b rest,
      ),
    )
  where
    head_of : (t : List ℕ) → 0 < length t → (x : ℕ) × (t' : List ℕ) × (t ≡ x ∷ t')
    head_of [] l = absurd (omega arith)
    head_of (x ∷ t') l = (x, t', refl)
