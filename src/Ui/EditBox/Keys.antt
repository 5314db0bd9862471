-- ===== src/Ui/EditBox/Keys.antt =====
-- src/ui/simple/CSimpleEditBox.cpp: a typed character, and setting the cursor. SUniSPutUTF8 of storm,
-- which is not code of the repository, is a parameter.
use whoa.Base.{
  ℕ, ◌==◌, leb, min, not, ◌&&◌, ◌||◌, bit_or, if◌then◌else◌, Bool, false, List, [], ◌∷◌, Option,
  none, some,
}
use whoa.Base.Int.{ℤ, pos, negsuc}
use whoa.Font.QuotedCode.{TextLibrary}
use whoa.Ui.EditBox.{EditBox, Memory, insert}

-- What is put in for a character, if anything is.
abbrev pub key_text : (ℕ → List ℕ) → Bool → ℕ → Option (List ℕ)
key_text put_utf8 multiline chr =
    if chr == 9
    then some (32 ∷ 32 ∷ 32 ∷ 32 ∷ [])
    else if chr == 124
    then some (124 ∷ 124 ∷ [])
    else if (multiline && chr == 10) || (leb 32 chr && not (chr == 127))
    then some (put_utf8 chr)
    else none

-- `Insert` of a character.
unfoldable pub insert_char : TextLibrary → Memory → (ℕ → List ℕ) → EditBox → ℕ → Option EditBox
insert_char u m put_utf8 box chr = elim (key_text put_utf8 box.multiline chr) [
  | none ↦ some box
  | some str ↦ insert u m box str false false
]

abbrev pub cursor_at : ℤ → ℕ → ℕ
cursor_at (pos n) text_length = min text_length n
cursor_at (negsuc n) text_length = 0

unfoldable pub set_cursor_position : EditBox → ℤ → EditBox
set_cursor_position box position = record box {
  cursor_pos = cursor_at position box.text_length;
  dirty_flags = bit_or box.dirty_flags 4;
}
