-- ===== src/Font/QuotedCode/Printed.antt =====
-- Codes that are written into a text, read again.
use whoa.Base.{
  ℕ, zero, suc, ◌+◌, ◌-◌, ◌/◌, ◌%◌, ◌<◌, ◌≡◌, ◌≢◌, refl, ◌∙◌, arith, ◌==◌, ltb, ◌&&◌, if◌then◌else◌,
  Bool, true, false, List, [], ◌∷◌, ◌++◌, none, some, get_or, length, All, length-append,
}
use whoa.Font.QuotedCode.{
  TextLibrary, TextLibraryLaws, Quoted, QuotedCode, scan_pipe, hex_values, hex_pair, quoted_payload,
  quoted_color, quoted_pipe, determine_quoted_code, color_on, color_restore, newline, pipe,
  hyperlink_start, hyperlink_stop, texture_start, texture_stop,
}

-- What a text can say with a pipe: a color of four bytes, its end, a new line, a pipe, a link with
-- what it leads to and its end, a texture with its name and its end.
pub data Written : Type 0 where
  color : ℕ → ℕ → ℕ → ℕ → Written
  restore : Written
  line : Written
  bar : Written
  link : List ℕ → Written
  link_end : Written
  texture : List ℕ → Written
  texture_end : Written

abbrev pub hex_char : ℕ → ℕ
hex_char n = if ltb n 10 then 48 + n else 87 + n

abbrev pub hex_byte : ℕ → List ℕ → List ℕ
hex_byte v t = hex_char (v / 16) ∷ hex_char (v % 16) ∷ t

-- The bytes of it, before the text that follows.
abbrev pub written : Written → List ℕ → List ℕ
written (color a r g b) t = 124 ∷ 99 ∷ hex_byte a (hex_byte r (hex_byte g (hex_byte b t)))
written restore t = 124 ∷ 114 ∷ t
written line t = 124 ∷ 110 ∷ t
written bar t = 124 ∷ 124 ∷ t
written (link payload) t = 124 ∷ 72 ∷ (payload ++ (124 ∷ 104 ∷ t))
written link_end t = 124 ∷ 104 ∷ t
written (texture name) t = 124 ∷ 84 ∷ (name ++ (124 ∷ 116 ∷ t))
written texture_end t = 124 ∷ 116 ∷ t

-- The code of it, its size and its color.
abbrev pub meaning : TextLibrary → Written → Quoted
meaning u (color a r g b) = record {
  code = color_on;
  advance = 10;
  color = some (u.make_argb 255 r g b);
  wide = 124;
}
meaning u restore = record { code = color_restore; advance = 2; color = none; wide = 124 }
meaning u line = record { code = newline; advance = 2; color = none; wide = 124 }
meaning u bar = record { code = pipe; advance = 2; color = none; wide = 124 }
meaning u (link payload) = record {
  code = hyperlink_start;
  advance = 4 + length payload;
  color = none;
  wide = 124;
}
meaning u link_end = record { code = hyperlink_stop; advance = 2; color = none; wide = 124 }
meaning u (texture name) = record {
  code = texture_start;
  advance = 4 + length name;
  color = none;
  wide = 124;
}
meaning u texture_end = record { code = texture_stop; advance = 2; color = none; wide = 124 }

-- ASCII characters that are not pipes, and at least one.
abbrev pub IsPayload : List ℕ → Type 0
IsPayload p = (0 < length p) × All (λ b. (0 < b) × (b < 128) × (b ≢ 124)) p

-- Colors are bytes; links and textures are not empty, a text follows on them, and on a link something
-- to display.
abbrev pub IsWritten : Written → List ℕ → Type 0
IsWritten (color a r g b) t = (a < 256) × (r < 256) × (g < 256) × (b < 256)
IsWritten (link payload) t =
    IsPayload payload × (0 < length t) × ((get_or t 0 0 == 124 && get_or t 1 0 == 104) ≡ false)
IsWritten (texture name) t = IsPayload name × (0 < length t)
IsWritten other t = Unit

hex_char-ne : (n : ℕ) → n < 16 → (hex_char n == 0) ≡ false
hex_char-ne n h = ground arith

hex_pair-char : (v : ℕ) → v < 256 → hex_pair (hex_char (v / 16)) (hex_char (v % 16)) ≡ some v
unfolding hex_pair
hex_pair-char v h =
    let hi : v / 16 < 16 = omega arith in let lo : v % 16 < 16 = omega arith in ground arith

hex_values-byte :
    (n v offset : ℕ) (text vs : List ℕ)
    → v < 256
    → get_or text offset 0 ≡ hex_char (v / 16)
    → get_or text (offset + 1) 0 ≡ hex_char (v % 16)
    → hex_values n text (offset + 2) ≡ some vs
    → hex_values (suc n) text offset ≡ some (v ∷ vs)
unfolding hex_values
hex_values-byte n v offset text vs h hi lo rest =
    rw
      (
        hi,
        lo,
        hex_values,
        hex_char-ne (v / 16) (omega arith),
        hex_char-ne (v % 16) (omega arith),
        hex_pair-char v h,
        rest,
      )
      refl

module _ (u : TextLibrary) (laws : TextLibraryLaws u) where
  at_pipe :
      (c : ℕ) (t : List ℕ)
      → determine_quoted_code u (124 ∷ c ∷ t) 0 ≡ quoted_pipe u (124 ∷ c ∷ t) 0 124
  unfolding determine_quoted_code
  at_pipe c t = rw (laws.ascii 124 (c ∷ t) (omega arith) (omega arith), determine_quoted_code) refl

  color-written :
      (a r g b : ℕ) (t : List ℕ)
      → IsWritten (color a r g b) t
      → quoted_pipe u (written (color a r g b) t) 0 124 ≡ meaning u (color a r g b)
  unfolding quoted_pipe quoted_color hex_values
  color-written a r g b t h =
      let text = written (color a r g b) t in
      let v3 = hex_values-byte 0 b 8 text [] h.3 refl refl refl in
      let v2 = hex_values-byte 1 g 6 text (b ∷ []) h.2 refl refl v3 in
      let v1 = hex_values-byte 2 r 4 text (g ∷ b ∷ []) h.1 refl refl v2 in
      let v0 = hex_values-byte 3 a 2 text (r ∷ g ∷ b ∷ []) h.0 refl refl v1 in
      rw (v0, quoted_color, quoted_pipe) refl

  scan_pipe-payload :
      (n : ℕ) (p t : List ℕ) (a : ℕ)
      → All (λ b. (0 < b) × (b < 128) × (b ≢ 124)) p
      → length p < n
      → scan_pipe u n (p ++ (124 ∷ t)) a ≡ (t, 1)
  unfolding scan_pipe
  scan_pipe-payload zero p t a h l = absurd (omega arith)
  scan_pipe-payload (suc n) [] t a h l =
      rw (laws.ascii 124 t (omega arith) (omega arith), scan_pipe) refl
  scan_pipe-payload (suc n) (b ∷ p) t a h l =
      let other : (b == 124) ≡ false = let ne = h.0.2 in ground arith in
      rw (laws.ascii b (p ++ (124 ∷ t)) h.0.0 h.0.1, scan_pipe, other)
        (scan_pipe-payload n p t 1 h.1 (omega arith))

  payload_written :
      (code : QuotedCode) (c e : ℕ) (display : Bool) (p t : List ℕ) (wide : ℕ)
      → (0 < c) × (c < 128) × (c ≢ 124)
      → (0 < e) × (e < 128)
      → IsPayload p
      → 0 < length t
      → (display && get_or t 0 0 == 124 && get_or t 1 0 == 104) ≡ false
      → quoted_payload u e code display (124 ∷ c ∷ (p ++ (124 ∷ e ∷ t))) wide
        ≡ record { code = code; advance = 4 + length p; color = none; wide = wide }
  unfolding quoted_payload
  payload_written code c e display p t wide hc he hp ht shown =
      let text = 124 ∷ c ∷ (p ++ (124 ∷ e ∷ t)) in
      let size : length text ≡ 4 + length p + length t =
        omega (arith, length-append p (124 ∷ e ∷ t)) in
      let scan =
        scan_pipe-payload (length text) (c ∷ p) (e ∷ t) 1 (hc, hp.1) (omega (arith, size)) in
      let first = laws.ascii e t he.0 he.1 in
      let some_left : (length t == 0) ≡ false = ground (arith, ht) in
      let more : (length (e ∷ t) == 0) ≡ false = ground arith in
      let same : (e == e) ≡ true = ground arith in
      let consumed : length text - length t ≡ 4 + length p = omega (arith, size) in
      let long : (4 + length p == 4) ≡ false = let n = hp.0 in ground arith in
      rw (scan, quoted_payload, first, more, some_left, same, consumed, long, shown) refl

  -- A color, the end of one, a new line, a pipe, a link of ASCII characters that are not pipes with a
  -- text to display, the end of a link, a texture named so that a text follows on, or its end: written
  -- behind a pipe at the start of a text, it is read as that code with its size, and as its color with
  -- full alpha, when no flag ignores it.
  pub determine_quoted_code-written :
      (w : Written) (t : List ℕ)
      → IsWritten w t
      → determine_quoted_code u (written w t) 0 ≡ meaning u w
  unfolding quoted_pipe
  determine_quoted_code-written (color a r g b) t h =
      at_pipe 99 (hex_byte a (hex_byte r (hex_byte g (hex_byte b t)))) ∙ color-written a r g b t h
  determine_quoted_code-written restore t h = at_pipe 114 t
  determine_quoted_code-written line t h = at_pipe 110 t
  determine_quoted_code-written bar t h = at_pipe 124 t
  determine_quoted_code-written (link p) t h =
      at_pipe 72 (p ++ (124 ∷ 104 ∷ t))
      ∙ payload_written hyperlink_start 72 104 true p t 124
          (omega arith, omega arith, λ e. absurd (omega arith)) (omega arith, omega arith) h.0 h.1
          h.2
  determine_quoted_code-written link_end t h = at_pipe 104 t
  determine_quoted_code-written (texture p) t h =
      at_pipe 84 (p ++ (124 ∷ 116 ∷ t))
      ∙ payload_written texture_start 84 116 false p t 124
          (omega arith, omega arith, λ e. absurd (omega arith)) (omega arith, omega arith) h.0 h.1
          refl
  determine_quoted_code-written texture_end t h = at_pipe 116 t
