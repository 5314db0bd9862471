-- ===== src/Ui/EditBox/Refusals.antt =====
-- Whether a string is put into an edit box.
use whoa.Base.{
  ℕ, zero, suc, ◌+◌, ◌-◌, ◌%◌, ◌^◌, ◌<◌, ◌≤◌, ◌≡◌, refl, sym, ap, ◌∙◌, arith, ltb, leb, not, ◌==◌,
  ◌&&◌, ◌||◌, if◌then◌else◌, Bool, true, false, List, [], ◌∷◌, ◌++◌, Option, some, get_or, length,
  length-append, lt→ltb, Bool-cases, inl, inr,
}
use mathlib.Core.Path.{subst}
use whoa.Font.QuotedCode.{TextLibrary, TextLibraryLaws, IsText}
use whoa.Ui.EditBox.{
  Memory, EditBox, read_at, in_link, prev_char_offset, rejects_text, cursor_in_link,
}
use whoa.Ui.EditBox.Shows.{Shows}

module _ (u : TextLibrary) (uni : TextLibraryLaws u) (m : Memory) where
  -- Whether the first character of a string is no decimal digit.
  abbrev pub starts_otherwise : List ℕ → Bool
  starts_otherwise [] = false
  starts_otherwise (b ∷ bs) = let code = (u.get_utf8 (b ∷ bs)).0 in not (leb 48 code && leb code 57)

  -- Whether a string is not put in, in a box that takes its cursor for one inside a link or not.
  abbrev pub refuses : EditBox → Bool → List ℕ → Bool → Bool
  refuses box linked str select = linked || ((box.numeric && not select) && starts_otherwise str)

  rejects-digit :
      (fuel b : ℕ) (bs rest : List ℕ)
      → length rest ≤ fuel
      → u.get_utf8 (b ∷ bs) ≡ (b, 1)
      → ltb 9 ((b + (2 ^ 32 - 48)) % 2 ^ 32) ≡ false
      → rejects_text u m fuel (b ∷ bs) rest ≡ some false
  unfolding rejects_text
  rejects-digit fuel b bs [] l e d = refl
  rejects-digit zero b bs (x ∷ rest) l e d = absurd (omega arith)
  rejects-digit (suc fuel) b bs (x ∷ rest) l e d =
      rw (e, rejects_text, d) (rejects-digit fuel b bs rest (omega arith) e d)

  pub rejects-first :
      (str : List ℕ)
      → IsText str
      → rejects_text u m (length str) str str ≡ some (starts_otherwise str)
  unfolding rejects_text
  rejects-first [] h = refl
  rejects-first (b ∷ bs) h =
      let code = (u.get_utf8 (b ∷ bs)).0 in
      let word = uni.word (b ∷ bs) h in
      let same = uni.ascii_only b bs in
      elim (Bool-cases (leb 48 code && leb code 57)) [
        | inl digit ↦
            let small : code < 128 = ground (arith, digit) in
            let e : code ≡ b = same small in
            let first = uni.ascii b bs h.0.0 (omega (arith, small, e)) in
            let low : ltb 9 ((b + (2 ^ 32 - 48)) % 2 ^ 32) ≡ false =
              subst (λ c. ltb 9 ((c + (2 ^ 32 - 48)) % 2 ^ 32) ≡ false) e
                (ground (arith, digit, word)) in
            rejects-digit (suc (length bs)) b bs (b ∷ bs) (omega arith) first low
            ∙ ap (λ t. some (not t)) (sym digit)
        | inr other ↦
            let high : ltb 9 ((code + (2 ^ 32 - 48)) % 2 ^ 32) ≡ true =
              ground (arith, other, word) in
            rw (high, rejects_text, other) refl
      ]

  pub under_test :
      {o : Option Bool} {v : Bool} (test : Bool)
      → o ≡ some v
      → (if test then o else some false) ≡ some (test && v)
  under_test true e = e
  under_test false e = refl

  read_at-some : (info : List ℕ) (i : ℕ) → i < length info → (v : ℕ) × (read_at info i ≡ some v)
  unfolding read_at
  read_at-some info i h = (get_or info i 0, rw (lt→ltb i (length info) h, read_at) refl)

  prev_char_offset-some :
      (info : List ℕ) (i : ℕ)
      → i ≤ length info
      → (p : ℕ) × (p ≤ i) × (prev_char_offset info i ≡ some p)
  unfolding prev_char_offset
  prev_char_offset-some info zero h = (0, omega arith, refl)
  prev_char_offset-some info (suc i) h =
      let (v, e) = read_at-some info i (omega arith) in
      let (p, le, f) = prev_char_offset-some info i (omega arith) in
      elim (Bool-cases (v == 0)) [
        | inl z ↦ (p, omega (arith, le), rw (e, prev_char_offset, z) f)
        | inr z ↦ (suc i, omega arith, rw (e, prev_char_offset, z) refl)
      ]

  pub cursor_in_link-some :
      (box : EditBox) (a b : List ℕ)
      → Shows box a b
      → (linked : Bool) × (cursor_in_link u m box ≡ some linked)
  unfolding cursor_in_link
  cursor_in_link-some box a b s =
      let (rest, e) = s.text in
      let room : box.cursor_pos < length box.text_info = omega (
        arith,
        s.cursor,
        s.info_room,
        s.text_room,
        ap length e,
        length-append a (b ++ (0 ∷ rest)),
        length-append b (0 ∷ rest),
      ) in
      let (here, e1) = read_at-some box.text_info box.cursor_pos room in
      let (p, le, e2) = prev_char_offset-some box.text_info box.cursor_pos (omega arith) in
      let (before, e3) = read_at-some box.text_info p (omega (arith, room, le)) in
      (in_link here && ltb 0 box.cursor_pos && in_link before, rw (e1, cursor_in_link, e2, e3) refl)
