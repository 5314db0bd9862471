-- ===== src/Ui/EditBox.antt =====
-- src/ui/simple/CSimpleEditBox.cpp: the text of an edit box and what is known of its characters
-- (UpdateTextInfo), typing into it (Insert), its cursor (SetCursorPosition, MoveForward, MoveBackward).
-- Memory of storm is the interface Memory. An access out of a buffer is none. What runs a script of the
-- box or is left to do in the code is not here.
pub mod TextInfo
mod Splice
pub mod Shows
pub mod Refusals
pub mod Insert
pub mod Keys
mod Tests
use whoa.Base.{
  ℕ, zero, suc, ◌+◌, ◌-◌, ◌*◌, ◌/◌, ◌%◌, ◌^◌, ◌≤◌, ◌≡◌, min, ltb, leb, not, ◌==◌, ◌&&◌, ◌||◌,
  bit_and, bit_or, if◌then◌else◌, Bool, true, false, List, [], ◌∷◌, ◌++◌, Option, none, some,
  get_or, set, take, drop, length, replicate,
}
use whoa.Base.Fallible.{◌>>=◌}
use whoa.Font.QuotedCode.{
  TextLibrary, QuotedCode, Quoted, determine_quoted_code, invalid_code, color_on, color_restore,
  newline, pipe, hyperlink_start, hyperlink_stop, texture_start, texture_stop,
}

-- SMemReAlloc, for an array of so many elements: what it holds behind the old ones is not said.
pub record Memory : Type 0 where
  pub realloc : List ℕ → ℕ → List ℕ

pub record MemoryLaws (m : Memory) : Type 0 where
  pub size : (old : List ℕ) (n : ℕ) → length (m.realloc old n) ≡ n
  pub kept : (old : List ℕ) (n : ℕ) → length old ≤ n → take (length old) (m.realloc old n) ≡ old

-- The members that the text depends on. The buffers hold m_textSize elements each.
pub record EditBox : Type 0 where
  pub multiline : Bool
  pub numeric : Bool
  pub dirty_flags : ℕ
  pub text : List ℕ
  pub text_info : List ℕ
  pub text_length : ℕ
  pub text_size : ℕ
  pub highlight_left : ℕ
  pub highlight_right : ℕ
  pub cursor_pos : ℕ

-- Reads and writes in a buffer.
pub read_at : List ℕ → ℕ → Option ℕ
read_at buffer i = if ltb i (length buffer) then some (get_or buffer i 0) else none

pub write_at : List ℕ → ℕ → ℕ → Option (List ℕ)
write_at buffer i v = if ltb i (length buffer) then some (set buffer i v) else none

-- `memcpy` of so many elements to a place.
pub copy_at : List ℕ → ℕ → List ℕ → Option (List ℕ)
copy_at buffer i source =
    if leb (i + length source) (length buffer)
    then some (take i buffer ++ (source ++ drop (i + length source) buffer))
    else none

-- The bytes before the terminating zero.
abbrev pub c_string : List ℕ → List ℕ
c_string [] = []
c_string (b ∷ bs) = if b == 0 then [] else b ∷ c_string bs

abbrev pub code_number : QuotedCode → ℕ
code_number invalid_code = 0
code_number color_on = 1
code_number color_restore = 2
code_number newline = 3
code_number pipe = 4
code_number hyperlink_start = 5
code_number hyperlink_stop = 6
code_number texture_start = 7
code_number texture_stop = 8

-- The highest bit of an entry: its place is in a link.
abbrev pub in_link : ℕ → Bool
in_link info = leb (2 ^ 31) info

-- What is stored at the first byte of a code.
abbrev pub info_entry : Bool → Quoted → ℕ
info_entry link q = (if link then 2 ^ 31 else 0) + code_number q.code * 2 ^ 16 + q.advance % 2 ^ 16

abbrev pub begins_link : QuotedCode → Bool
begins_link code = code_number code == 5

abbrev pub ends_link : QuotedCode → Bool
ends_link code = code_number code == 6

module _ (u : TextLibrary) where
  -- The loop of UpdateTextInfo from a place on, with the text from there.
  pub update_info : ℕ → ℕ → Bool → List ℕ → List ℕ → Option (List ℕ)
  update_info fuel i link info [] = some info
  update_info zero i link info (b ∷ bs) = none
  update_info (suc fuel) i link info (b ∷ bs) =
      let q = determine_quoted_code u (b ∷ bs) 0 in
      let inside = link || begins_link q.code in
      elim (write_at info i (info_entry inside q)) [
        | none ↦ none
        | some info' ↦
            update_info fuel (i + q.advance) (inside && not (ends_link q.code)) info'
              (drop q.advance (b ∷ bs))
      ]

  pub update_text_info : EditBox → Option EditBox
  update_text_info box =
      elim (update_info (length (c_string box.text)) 0 false (replicate box.text_size 0)
        (c_string box.text)) [ none ↦ none | some info ↦ some (record box { text_info = info }) ]

-- The loop of PrevCharOffset.
pub prev_char_offset : List ℕ → ℕ → Option ℕ
prev_char_offset info zero = some zero
prev_char_offset info (suc offset) =
    let before = prev_char_offset info offset in
    elim (read_at info offset) [
      | none ↦ none
      | some entry ↦ if entry == 0 then before else some (suc offset)
    ]

pub grow_text : Memory → EditBox → ℕ → EditBox
grow_text m box size =
    let text_size = (size + 32) % 2 ^ 32 / 32 * 32 in
    if leb (size + 1) box.text_size then box else record box {
      text_size = text_size;
      text = m.realloc box.text text_size;
      text_info = m.realloc box.text_info text_size;
    }

-- Whether two parts of n bytes have a byte in common.
abbrev pub parts_overlap : ℕ → ℕ → ℕ → Bool
parts_overlap to from n = ltb to (from + n) && ltb from (to + n)

-- `memcpy` inside a buffer; where the two parts overlap it is not defined, and gives `none`.
pub copy_within : List ℕ → ℕ → ℕ → ℕ → Option (List ℕ)
unfolding copy_at
copy_within buffer to from n =
    if parts_overlap to from n
    then none
    else if leb (from + n) (length buffer)
    then copy_at buffer to (take n (drop from buffer))
    else none

-- The text with another one put in at a place of it.
pub splice : List ℕ → ℕ → ℕ → List ℕ → Option (List ℕ)
unfolding copy_at copy_within write_at
splice buffer text_length at str = do
  let n = length str
  let moved =
      if ltb at text_length then copy_within buffer (at + n) at (text_length - at) else some buffer
  opened ← moved
  written ← copy_at opened at str
  write_at written (text_length + n) 0

abbrev pub insert_flags : ℕ → Bool → Bool → ℕ
insert_flags flags select from_program =
    let dirty = bit_or flags 5 in
    let changed = if from_program then bit_and dirty 0xFFFFFFF7 else bit_or dirty 8 in
    if select then bit_or changed 2 else changed

module _ (u : TextLibrary) (m : Memory) where
  -- The loop over the text for a numeric box, which looks at the first character in each round; true
  -- for a return.
  pub rejects_text : ℕ → List ℕ → List ℕ → Option Bool
  rejects_text fuel str [] = some false
  rejects_text zero str (b ∷ bs) = none
  rejects_text (suc fuel) str (b ∷ bs) =
      let (code, advance) = u.get_utf8 str in
      let rest = rejects_text fuel str (drop advance (b ∷ bs)) in
      if ltb 9 ((code + (2 ^ 32 - 48)) % 2 ^ 32) then some true else rest

  -- The first test of Insert: the cursor is inside a link.
  pub cursor_in_link : EditBox → Option Bool
  unfolding read_at prev_char_offset
  cursor_in_link box = do
    here ← read_at box.text_info box.cursor_pos
    place ← prev_char_offset box.text_info box.cursor_pos
    before ← read_at box.text_info place
    some (in_link here && ltb 0 box.cursor_pos && in_link before)

  -- What Insert does behind its tests.
  pub insert_text : EditBox → List ℕ → Bool → Bool → Option EditBox
  insert_text box str select from_program = do
    let n = length str
    let grown = grow_text m box (box.text_length + n)
    text ← splice grown.text box.text_length box.cursor_pos str
    updated ← update_text_info u (record grown {
      text = text;
      text_length = box.text_length + n;
      cursor_pos = box.cursor_pos + n;
    })
    some (record updated {
      dirty_flags = insert_flags box.dirty_flags select from_program;
      highlight_left = if select then box.cursor_pos else box.highlight_left;
      highlight_right =
          if select then min (box.text_length + n) (box.cursor_pos + n) else box.highlight_right;
    })

  -- `Insert` of a string, with a5 and a6.
  pub insert : EditBox → List ℕ → Bool → Bool → Option EditBox
  insert box str select from_program = do
    linked ← cursor_in_link box
    rejected ← if box.numeric && not select then rejects_text (length str) str str else some false
    if linked || rejected then some box else insert_text box str select from_program
