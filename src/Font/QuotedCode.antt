-- ===== src/Font/QuotedCode.antt =====
-- src/gx/font/GxuFont.cpp, GxuDetermineQuotedCode: the code that a text starts with. A text is the bytes
-- before its end. SUniSGetUTF8 of storm and MakeARGB of tempest, which are not code of the repository,
-- are the interface TextLibrary.
pub mod Advance
pub mod Printed
pub mod Tests
use whoa.Base.{
  ℕ, zero, suc, ◌+◌, ◌-◌, ◌*◌, ◌%◌, ◌^◌, ◌<◌, ◌≤◌, ◌≡◌, ◌==◌, ltb, leb, not, ◌&&◌, ◌||◌, bit_and,
  if◌then◌else◌, Bool, true, false, List, [], ◌∷◌, Option, none, some, get_or, drop, length, All,
}

-- `QUOTEDCODE`
pub data QuotedCode : Type 0 where
  invalid_code : QuotedCode
  color_on : QuotedCode
  color_restore : QuotedCode
  newline : QuotedCode
  pipe : QuotedCode
  hyperlink_start : QuotedCode
  hyperlink_stop : QuotedCode
  texture_start : QuotedCode
  texture_stop : QuotedCode

pub record TextLibrary : Type 0 where
  -- SUniSGetUTF8: the first character and its bytes
  pub get_utf8 : List ℕ → ℕ × ℕ
  -- CImVector::MakeARGB of tempest
  pub make_argb : ℕ → ℕ → ℕ → ℕ → ℕ

abbrev pub IsText : List ℕ → Type 0
IsText t = All (λ b. (0 < b) × (b < 256)) t

-- A byte below 128 is a character, no other bytes are read as one of these, a character is a number of
-- 32 bits, and it is inside its text.
pub record TextLibraryLaws (u : TextLibrary) : Type 0 where
  pub ends : (u.get_utf8 []).0 ≡ 0
  pub ascii : (b : ℕ) (t : List ℕ) → 0 < b → b < 128 → u.get_utf8 (b ∷ t) ≡ (b, 1)
  pub ascii_only : (b : ℕ) (t : List ℕ) → (u.get_utf8 (b ∷ t)).0 < 128 → (u.get_utf8 (b ∷ t)).0 ≡ b
  pub word : (t : List ℕ) → IsText t → (u.get_utf8 t).0 < 2 ^ 32
  pub inside :
      (b : ℕ) (t : List ℕ)
      → IsText (b ∷ t)
      → (1 ≤ (u.get_utf8 (b ∷ t)).1) × ((u.get_utf8 (b ∷ t)).1 ≤ suc (length t))

pub record Quoted : Type 0 where
  pub code : QuotedCode
  pub advance : ℕ
  -- The color that is written, if one is
  pub color : Option ℕ
  pub wide : ℕ

abbrev pub ignores : ℕ → ℕ → Bool
ignores flags flag = not (bit_and flags flag == 0)

-- The value of a hexadecimal digit, if it is one.
abbrev pub hex_digit : ℕ → Option ℕ
hex_digit c =
    if leb 48 c && leb c 57
    then some (c - 48)
    else if leb 97 c && leb c 102
    then some (c - 87)
    else if leb 65 c && leb c 70
    then some (c - 55)
    else none

abbrev pub is_blank : ℕ → Bool
is_blank c = c == 32 || (leb 9 c && leb c 13)

-- strtol of two characters to the base 16, if it reads both, as a byte. The first may be a blank or a
-- sign.
pub hex_pair : ℕ → ℕ → Option ℕ
hex_pair a b = elim (hex_digit b) [
  | none ↦ none
  | some y ↦ elim (hex_digit a) [
    | some x ↦ some (x * 16 + y)
    | none ↦
        if is_blank a || a == 43 then some y else if a == 45 then some ((256 - y) % 256) else none
  ]
]

-- The loop over the four values of a color, from an offset.
pub hex_values : ℕ → List ℕ → ℕ → Option (List ℕ)
hex_values zero text offset = some []
hex_values (suc n) text offset =
    let rest = hex_values n text (offset + 2) in
    if get_or text offset 0 == 0 || get_or text (offset + 1) 0 == 0
    then none
    else elim (hex_pair (get_or text offset 0) (get_or text (offset + 1) 0)) [
      | none ↦ none
      | some v ↦ elim rest [ none ↦ none | some vs ↦ some (v ∷ vs) ]
    ]

module _ (u : TextLibrary) where
  -- The loop up to behind a pipe, and the advance of the last character.
  pub scan_pipe : ℕ → List ℕ → ℕ → List ℕ × ℕ
  scan_pipe zero text advance = (text, advance)
  scan_pipe (suc n) [] advance = ([], advance)
  scan_pipe (suc n) (b ∷ bs) advance =
      let (code, a) = u.get_utf8 (b ∷ bs) in
      let rest = scan_pipe n (drop a (b ∷ bs)) a in
      if code == 124 then (drop a (b ∷ bs), a) else rest

  -- The branches H and T, whose payload ends in a pipe and a character.
  pub quoted_payload : ℕ → QuotedCode → Bool → List ℕ → ℕ → Quoted
  quoted_payload end_code start display text wide =
      let (rest, a) = scan_pipe (length text) (drop 1 text) 1 in
      let (code, a') = u.get_utf8 rest in
      let after = drop a' rest in
      let consumed = length text - length after in
      if length rest == 0
      then record { code = invalid_code; advance = a; color = none; wide = wide }
      else if length after == 0
          || not (code == end_code)
          || consumed == 4
          || (display && get_or after 0 0 == 124 && get_or after 1 0 == 104)
      then record { code = invalid_code; advance = a'; color = none; wide = wide }
      else record { code = start; advance = consumed; color = none; wide = wide }

  -- The branch C.
  pub quoted_color : List ℕ → ℕ → Quoted
  quoted_color text wide = elim (hex_values 4 text 2) [
    | none ↦ record { code = invalid_code; advance = 1; color = none; wide = wide }
    | some value ↦ record {
      code = color_on;
      advance = 10;
      color = some (u.make_argb 0xFF (get_or value 1 0) (get_or value 2 0) (get_or value 3 0));
      wide = wide;
    }
  ]

  abbrev plain : ℕ → ℕ → Quoted
  plain advance wide = record { code = invalid_code; advance = advance; color = none; wide = wide }

  abbrev two_bytes : Bool → QuotedCode → ℕ → Quoted
  two_bytes ignored code wide =
      if ignored
      then plain 1 wide
      else record { code = code; advance = 2; color = none; wide = wide }

  -- The switch on the character behind a pipe.
  pub quoted_pipe : List ℕ → ℕ → ℕ → Quoted
  quoted_pipe text flags wide =
      let c = get_or text 1 0 in
      if c == 0
      then plain 1 wide
      else if c == 67 || c == 99
      then if ignores flags 0x100 then plain 1 wide else quoted_color text wide
      else if c == 72
      then if ignores flags 0x400
        then plain 1 wide
        else quoted_payload 104 hyperlink_start true text wide
      else if c == 78 || c == 110
      then two_bytes (ignores flags 0x200) newline wide
      else if c == 82 || c == 114
      then two_bytes (ignores flags 0x100) color_restore wide
      else if c == 84
      then if ignores flags 0x1000
        then plain 1 wide
        else quoted_payload 116 texture_start false text wide
      else if c == 104
      then two_bytes (ignores flags 0x400) hyperlink_stop wide
      else if c == 116
      then two_bytes (ignores flags 0x1000) texture_stop wide
      else if c == 124
      then two_bytes false pipe wide
      else plain 1 wide

  -- `GxuDetermineQuotedCode`, with a color to write.
  pub determine_quoted_code : List ℕ → ℕ → Quoted
  determine_quoted_code text flags =
      let (wide, advance) = u.get_utf8 text in
      if wide == 0 || wide == 0xFFFFFFFF
      then plain advance wide
      else if wide == 13
      then record {
        code = newline;
        advance = if (u.get_utf8 (drop 1 text)).0 == 10 then 2 else 1;
        color = none;
        wide = wide;
      }
      else if wide == 10
      then record { code = newline; advance = 1; color = none; wide = wide }
      else if not (wide == 124) || ignores flags 0x800
      then plain advance wide
      else quoted_pipe text flags wide
