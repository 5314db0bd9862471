-- ===== src/Font/QuotedCode/Advance.antt =====
-- How far GxuDetermineQuotedCode steps.
use whoa.Base.{
  ℕ, zero, suc, ◌+◌, ◌*◌, ◌<◌, ◌≤◌, ◌≡◌, refl, arith, ◌==◌, Bool, true, false, List, [], ◌∷◌, some,
  get_or, drop, length, length-drop, Bool-cases, Option-cases, inl, inr,
}
use whoa.Font.QuotedCode.{
  TextLibrary, TextLibraryLaws, IsText, QuotedCode, scan_pipe, hex_values, quoted_payload,
  quoted_color, quoted_pipe, determine_quoted_code,
}

-- A step that is at least one byte, and stays in so many.
abbrev pub IsStep : ℕ → ℕ → Type 0
IsStep size advance = (1 ≤ advance) × (advance ≤ size)

pub drop-IsText : (n : ℕ) (text : List ℕ) → IsText text → IsText (drop n text)
drop-IsText zero text h = h
drop-IsText (suc n) [] h = h
drop-IsText (suc n) (b ∷ bs) h = drop-IsText n bs h.1

get_or-zero : (text : List ℕ) (i : ℕ) → (get_or text i 0 == 0) ≡ false → i < length text
get_or-zero [] i h = ground arith
get_or-zero (b ∷ bs) zero h = omega arith
get_or-zero (b ∷ bs) (suc i) h = omega (arith, get_or-zero bs i h)

module _ (u : TextLibrary) (laws : TextLibraryLaws u) where
  record Scanned (size start : ℕ) (r : List ℕ × ℕ) : Type 0 where
    step : IsStep size r.1
    inside : length r.0 ≤ start
    text : IsText r.0

  scan_pipe-Scanned :
      (n : ℕ) (text : List ℕ) (advance size : ℕ)
      → IsText text
      → length text ≤ size
      → IsStep size advance
      → Scanned size (length text) (scan_pipe u n text advance)
  unfolding scan_pipe
  scan_pipe-Scanned zero text advance size h l s = record {
    step = s;
    inside = omega arith;
    text = h;
  }
  scan_pipe-Scanned (suc n) [] advance size h l s = record {
    step = s;
    inside = omega arith;
    text = h;
  }
  scan_pipe-Scanned (suc n) (b ∷ bs) advance size h l s =
      let a = (u.get_utf8 (b ∷ bs)).1 in
      let bounds = laws.inside b bs h in
      let rest = drop a (b ∷ bs) in
      let shorter : length rest ≤ suc (length bs) = omega (arith, length-drop a (b ∷ bs)) in
      let step : IsStep size a = (bounds.0, omega (arith, bounds.1)) in
      let next = scan_pipe-Scanned n rest a size (drop-IsText a (b ∷ bs) h) (omega arith) step in
      elim (Bool-cases ((u.get_utf8 (b ∷ bs)).0 == 124)) [
        | inl e ↦ rw e (record { step = step; inside = shorter; text = drop-IsText a (b ∷ bs) h })
        | inr e ↦
            rw e
              (record { step = next.step; inside = omega (arith, next.inside); text = next.text })
      ]

  -- A round for each byte is enough.
  pub scan_pipe-enough :
      (n m : ℕ) (text : List ℕ) (advance : ℕ)
      → IsText text
      → length text ≤ n
      → length text ≤ m
      → scan_pipe u n text advance ≡ scan_pipe u m text advance
  unfolding scan_pipe
  scan_pipe-enough zero zero text advance h k l = refl
  scan_pipe-enough zero (suc m) [] advance h k l = refl
  scan_pipe-enough zero (suc m) (b ∷ bs) advance h k l = absurd (omega arith)
  scan_pipe-enough (suc n) zero [] advance h k l = refl
  scan_pipe-enough (suc n) zero (b ∷ bs) advance h k l = absurd (omega arith)
  scan_pipe-enough (suc n) (suc m) [] advance h k l = refl
  scan_pipe-enough (suc n) (suc m) (b ∷ bs) advance h k l =
      let a = (u.get_utf8 (b ∷ bs)).1 in
      let bounds = laws.inside b bs h in
      let shorter = length-drop a (b ∷ bs) in
      let rest =
        scan_pipe-enough n m (drop a (b ∷ bs)) a (drop-IsText a (b ∷ bs) h)
          (omega (arith, bounds.0, shorter)) (omega (arith, bounds.0, shorter)) in
      rw rest refl

  first_inside :
      (t : List ℕ) → IsText t → (length t == 0) ≡ false → IsStep (length t) (u.get_utf8 t).1
  first_inside [] h e = ground arith
  first_inside (b ∷ bs) h e = laws.inside b bs h

  drop_bounds : (t : List ℕ) → IsText t → length (drop (u.get_utf8 t).1 t) ≤ length t
  drop_bounds t h = omega (arith, length-drop (u.get_utf8 t).1 t)

  quoted_payload-IsStep :
      (code : QuotedCode) (end_code : ℕ) (display : Bool) (text : List ℕ) (wide : ℕ)
      → IsText text
      → 2 ≤ length text
      → IsStep (length text) (quoted_payload u end_code code display text wide).advance
  unfolding quoted_payload
  quoted_payload-IsStep code end_code display text wide h l =
      let s =
        scan_pipe-Scanned (length text) (drop 1 text) 1 (length text) (drop-IsText 1 text h)
          (omega (arith, length-drop 1 text)) (omega arith) in
      let r = scan_pipe u (length text) (drop 1 text) 1 in
      let first = first_inside r.0 s.text in
      let after = length-drop (u.get_utf8 r.0).1 r.0 in
      let whole = length-drop 1 text in ground (arith, s.step, s.inside, first, after, whole, l)

  hex_values-length :
      (n : ℕ) (text : List ℕ) (offset : ℕ) (value : List ℕ)
      → hex_values n text offset ≡ some value
      → 0 < n
      → offset + 2 * n ≤ length text
  unfolding hex_values
  hex_values-length zero text offset value e p = absurd (omega arith)
  hex_values-length (suc zero) text offset value e p =
      let here = get_or-zero text (offset + 1) in ground (arith, here, e)
  hex_values-length (suc (suc n)) text offset value e p =
      let rest = λ (vs : List ℕ). hex_values-length (suc n) text (offset + 2) vs in
      elim (Option-cases (hex_values (suc n) text (offset + 2))) [
        | inl f ↦ ground (arith, e, f)
        | inr (vs, f) ↦ let le = rest vs f (omega arith) in omega (arith, le)
      ]

  quoted_color-IsStep :
      (text : List ℕ) (wide : ℕ)
      → 2 ≤ length text
      → IsStep (length text) (quoted_color u text wide).advance
  unfolding quoted_color
  quoted_color-IsStep text wide h = elim (Option-cases (hex_values 4 text 2)) [
    | inl f ↦ rw (f, quoted_color) (omega arith, omega arith)
    | inr (value, f) ↦
        rw (f, quoted_color) (omega arith, hex_values-length 4 text 2 value f (omega arith))
  ]

  quoted_pipe-IsStep :
      (text : List ℕ) (flags wide : ℕ)
      → IsText text
      → 1 ≤ length text
      → IsStep (length text) (quoted_pipe u text flags wide).advance
  unfolding quoted_pipe
  quoted_pipe-IsStep text flags wide h l =
      let two = get_or-zero text 1 in
      let color = quoted_color-IsStep text wide in
      let link = quoted_payload-IsStep QuotedCode.hyperlink_start 104 true text wide h in
      let texture = quoted_payload-IsStep QuotedCode.texture_start 116 false text wide h in
      ground (arith, two, color, link, texture, l)

  newline_inside : (t : List ℕ) → (u.get_utf8 t).0 ≡ 10 → 1 ≤ length t
  newline_inside [] e = let zero_code = laws.ends in absurd (omega arith)
  newline_inside (b ∷ bs) e = omega arith

  -- Where a character takes at least one byte and none behind the end of its text: the code that a
  -- text, which is not empty, starts with takes at least one byte, and no more than the text has.
  pub determine_quoted_code-advance :
      (text : List ℕ) (flags : ℕ)
      → IsText text
      → 0 < length text
      → (1 ≤ (determine_quoted_code u text flags).advance)
        × ((determine_quoted_code u text flags).advance ≤ length text)
  unfolding determine_quoted_code
  determine_quoted_code-advance [] flags h l = absurd (omega arith)
  determine_quoted_code-advance (b ∷ bs) flags h l =
      let first = laws.inside b bs h in
      let quoted = quoted_pipe-IsStep (b ∷ bs) flags (u.get_utf8 (b ∷ bs)).0 h (omega arith) in
      let second = newline_inside bs in ground (arith, first, quoted, second)
