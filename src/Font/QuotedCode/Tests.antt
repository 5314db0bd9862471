-- ===== src/Font/QuotedCode/Tests.antt =====
-- Examples of codes in a text, with characters of one byte, and of two from 192 on.
use whoa.Base.{
  ℕ, suc, ◌+◌, ◌*◌, ◌^◌, ◌<◌, ◌≤◌, ◌≡◌, refl, arith, if◌then◌else◌, ltb, List, [], ◌∷◌, length,
}
use whoa.Font.QuotedCode.{
  TextLibrary, TextLibraryLaws, IsText, Quoted, QuotedCode, determine_quoted_code,
}
use whoa.Font.QuotedCode.Printed.{link, written, meaning, determine_quoted_code-written}

abbrev pub first_character : List ℕ → ℕ × ℕ
first_character [] = (0, 0)
first_character (b ∷ []) = (b, 1)
first_character (b ∷ c ∷ t) = if ltb b 192 then (b, 1) else (b * 64 + c, 2)

abbrev pub characters : TextLibrary
characters = record {
  get_utf8 = first_character;
  make_argb = λ a r g b. a * 16777216 + r * 65536 + g * 256 + b;
}

characters-ascii : (b : ℕ) (t : List ℕ) → 0 < b → b < 128 → first_character (b ∷ t) ≡ (b, 1)
characters-ascii b [] h k = refl
characters-ascii b (c ∷ t) h k = ground arith

characters-only :
    (b : ℕ) (t : List ℕ) → (first_character (b ∷ t)).0 < 128 → (first_character (b ∷ t)).0 ≡ b
characters-only b [] h = refl
characters-only b (c ∷ t) h = ground arith

characters-inside :
    (b : ℕ) (t : List ℕ)
    → (1 ≤ (first_character (b ∷ t)).1) × ((first_character (b ∷ t)).1 ≤ suc (length t))
characters-inside b [] = (omega arith, omega arith)
characters-inside b (c ∷ t) = ground arith

characters-word : (t : List ℕ) → IsText t → (first_character t).0 < 2 ^ 32
characters-word [] h = omega arith
characters-word (b ∷ []) h = omega (arith, h.0.1)
characters-word (b ∷ c ∷ t) h = let p = h.0.1 in let q = h.1.0.1 in ground arith

pub characters-laws : TextLibraryLaws characters
characters-laws = record {
  ends = refl;
  ascii = characters-ascii;
  ascii_only = characters-only;
  word = characters-word;
  inside = λ b t h. characters-inside b t;
}

-- |Hab|hc
abbrev pub link_text : List ℕ
link_text = 124 ∷ 72 ∷ 97 ∷ 98 ∷ 124 ∷ 104 ∷ 99 ∷ []

determine_quoted_code-written_example :
    determine_quoted_code characters (written (link (97 ∷ 98 ∷ [])) (99 ∷ [])) 0
    ≡ meaning characters (link (97 ∷ 98 ∷ []))
determine_quoted_code-written_example =
    determine_quoted_code-written characters characters-laws (link (97 ∷ 98 ∷ [])) (99 ∷ [])
      (ground arith)

-- A pipe and H before a character of two bytes, with no end: the code is invalid, and its advance is
-- that of the other character.
swallowed : (determine_quoted_code characters (124 ∷ 72 ∷ 195 ∷ 164 ∷ []) 0).advance ≡ 2
unfolding determine_quoted_code whoa.Font.QuotedCode.quoted_pipe whoa.Font.QuotedCode.quoted_payload
    whoa.Font.QuotedCode.scan_pipe
swallowed = refl

-- A minus sign is taken for a hexadecimal digit.
signed :
    (determine_quoted_code characters
      (124 ∷ 99 ∷ 102 ∷ 102 ∷ 45 ∷ 49 ∷ 48 ∷ 48 ∷ 48 ∷ 48 ∷ [])
      0).code
    ≡ QuotedCode.color_on
unfolding determine_quoted_code whoa.Font.QuotedCode.quoted_pipe whoa.Font.QuotedCode.quoted_color
    whoa.Font.QuotedCode.hex_values whoa.Font.QuotedCode.hex_pair
signed = refl
