-- ===== src/Ui/EditBox/Insert.antt =====
-- Typing into an edit box.
use whoa.Base.{
  ℕ, ◌+◌, ◌-◌, ◌^◌, ◌<◌, ◌≤◌, ◌≡◌, refl, sym, ap, ◌∙◌, arith, not, leb, ◌&&◌, if◌then◌else◌, Bool,
  true, false, List, ◌∷◌, ◌++◌, none, some, length, replicate, min, length-append, append_assoc,
  Bool-cases, inl, inr, ◌⊎◌,
}
use mathlib.Core.Path.{subst}
use whoa.Font.QuotedCode.{TextLibrary, TextLibraryLaws, IsText}
use whoa.Ui.EditBox.{
  Memory, MemoryLaws, EditBox, c_string, update_text_info, splice, insert_flags, rejects_text,
  cursor_in_link, insert_text, insert,
}
use whoa.Ui.EditBox.TextInfo.{layout, layout-length, length-replicate, update_text_info_lem}
use whoa.Ui.EditBox.Splice.{splice_lem, splice_overlap}
use whoa.Ui.EditBox.Shows.{Shows, IsLaidOut, append-IsText, c_string-append, grow_text_lem}
use whoa.Ui.EditBox.Refusals.{
  refuses, starts_otherwise, rejects-first, under_test, cursor_in_link-some,
}

module _ (u : TextLibrary) (uni : TextLibraryLaws u) (m : Memory) (laws : MemoryLaws m) where
  -- What is left when a string was put in before the cursor.
  pub record Typed (box box' : EditBox) (a b str : List ℕ) (flags : ℕ) : Type 0 where
    pub shows : Shows box' (a ++ str) b
    pub info : IsLaidOut u box' ((a ++ str) ++ b)
    pub dirty : box'.dirty_flags ≡ flags
    pub multiline : box'.multiline ≡ box.multiline
    pub numeric : box'.numeric ≡ box.numeric

  update_content :
      (box : EditBox) (t : List ℕ)
      → c_string box.text ≡ t
      → IsText t
      → length t < box.text_size
      → update_text_info u box
        ≡ some (record box {
          text_info = layout u (length t) false t ++ replicate (box.text_size - length t) 0;
        })
  update_content box t e =
      subst
        (λ c.
          IsText c
          → length c < box.text_size
          → update_text_info u box
            ≡ some (record box {
              text_info = layout u (length c) false c ++ replicate (box.text_size - length c) 0;
            }))
        e (update_text_info_lem u uni box)

  insert_text_lem :
      (box : EditBox) (a b str : List ℕ) (select from_program : Bool)
      → Shows box a b
      → IsText str
      → length a + length b + length str + 32 < 2 ^ 31
      → length b ≤ length str
      → (box' : EditBox) × (insert_text u m box str select from_program ≡ some box')
        × Typed box box' a b str (insert_flags box.dirty_flags select from_program)
  unfolding insert_text
  insert_text_lem box a b str select from_program s h fits clear =
      let n = length str in
      let (size, rest, info, grown, text_room, info_room, room) =
        grow_text_lem m laws box a b (box.text_length + n) s (omega (arith, s.size)) in
      let space : n + length b + 1 ≤ length (b ++ (0 ∷ rest)) =
        omega (arith, s.size, text_room, room, length-append a (b ++ (0 ∷ rest))) in
      let (rest', spliced, kept_size) = splice_lem a b (0 ∷ rest) str space clear in
      let full = (a ++ str) ++ b in
      let size_full : length full ≡ length a + n + length b =
        omega (arith, length-append (a ++ str) b, length-append a str) in
      let text = full ++ (0 ∷ rest') in
      let joined : (a ++ (str ++ b)) ++ (0 ∷ rest') ≡ text =
        ap (λ t. t ++ (0 ∷ rest')) (sym (append_assoc a str b)) in
      let whole_text = append-IsText (a ++ str) b (append-IsText a str s.before h) s.behind in
      let spliced' : splice (a ++ (b ++ (0 ∷ rest))) box.text_length box.cursor_pos str
          ≡ some text =
        rw (s.size, s.cursor) (spliced ∙ ap some joined) in
      let mid : EditBox = record box {
        text_size = size;
        text_info = info;
        text = text;
        text_length = box.text_length + n;
        cursor_pos = box.cursor_pos + n;
      } in
      let updated =
        update_content mid full (c_string-append full rest' whole_text) whole_text
          (omega (arith, s.size)) in
      let entries = layout u (length full) false full ++ replicate (size - length full) 0 in
      let entries_room : length entries ≡ size = omega (
        arith,
        s.size,
        length-append (layout u (length full) false full) (replicate (size - length full) 0),
        layout-length u uni (length full) false full whole_text (omega arith),
        length-replicate (size - length full) 0,
      ) in
      (
        record mid {
          text_info = entries;
          dirty_flags = insert_flags box.dirty_flags select from_program;
          highlight_left = if select then box.cursor_pos else box.highlight_left;
          highlight_right =
              if select
              then min (box.text_length + n) (box.cursor_pos + n)
              else box.highlight_right;
        },
        rw (grown, insert_text, spliced', updated) refl,
        record {
          shows = record {
            before = append-IsText a str s.before h;
            behind = s.behind;
            cursor = omega (arith, s.cursor, length-append a str);
            size = omega (arith, s.size, length-append a str);
            text = (rest', append_assoc (a ++ str) b (0 ∷ rest'));
            text_room = sym (ap length joined) ∙ kept_size ∙ text_room;
            info_room = entries_room;
          };
          info = refl;
          dirty = refl;
          multiline = refl;
          numeric = refl;
        },
      )

  insert_text_overlap :
      (box : EditBox) (a b str : List ℕ) (select from_program : Bool)
      → Shows box a b
      → length a + length b + length str + 32 < 2 ^ 31
      → length str < length b
      → insert_text u m box str select from_program ≡ none
  unfolding insert_text
  insert_text_overlap box a b str select from_program s fits short =
      let (size, rest, info, grown, text_room, info_room, room) =
        grow_text_lem m laws box a b (box.text_length + length str) s (omega (arith, s.size)) in
      let not_defined : splice (a ++ (b ++ (0 ∷ rest))) box.text_length box.cursor_pos str ≡ none =
        splice_overlap _ str box.text_length box.cursor_pos (omega (arith, s.size, s.cursor)) in
      rw (grown, insert_text, not_defined) refl

  -- Into a box that shows a text before its cursor and one behind it, a string of bytes is put, where
  -- all of it is shorter than 2 ^ 31 - 32, and a character takes at least one byte and none behind the
  -- end of its text: the box is as it was exactly if it takes the cursor for one inside a link, or is
  -- numeric and the string, which is not to be selected, starts with another character than a digit.
  -- Otherwise, if the text behind the cursor is longer than the string, the code copies it over
  -- itself, which is not defined; and if it is not, the code ends and stays in the buffers, the box
  -- shows the string behind what was before the cursor, its entries are those of the codes of the whole
  -- text, and its flags tell of the change.
  pub insert_lem :
      (box : EditBox) (a b str : List ℕ) (select from_program : Bool)
      → Shows box a b
      → IsText str
      → length a + length b + length str + 32 < 2 ^ 31
      → (linked : Bool) × (cursor_in_link u m box ≡ some linked)
        × (((refuses u uni m box linked str select ≡ true)
              × (insert u m box str select from_program ≡ some box))
            ⊎ (((refuses u uni m box linked str select ≡ false)
                  × (length str < length b)
                  × (insert u m box str select from_program ≡ none))
                ⊎ ((refuses u uni m box linked str select ≡ false)
                    × (length b ≤ length str)
                    × ((box' : EditBox) × (insert u m box str select from_program ≡ some box')
                        × Typed box box' a b str
                            (insert_flags box.dirty_flags select from_program)))))
  unfolding insert
  insert_lem box a b str select from_program s h fits =
      let (linked, e) = cursor_in_link-some u uni m box a b s in
      let rejected : (if box.numeric && not select
            then rejects_text u m (length str) str str
            else some false)
          ≡ some ((box.numeric && not select) && starts_otherwise u uni m str) =
        under_test u uni m (box.numeric && not select) (rejects-first u uni m str h) in
      elim (Bool-cases (refuses u uni m box linked str select)) [
        | inl r ↦ (linked, e, inl (r, rw (e, insert, rejected, r) refl))
        | inr r ↦ elim (Bool-cases (leb (length b) (length str))) [
          | inl wide ↦
              let clear : length b ≤ length str = ground (arith, wide) in
              let (box', done, typed) =
                insert_text_lem box a b str select from_program s h fits clear in
              (linked, e, inr (inr (r, clear, (box', rw (e, insert, rejected, r) done, typed))))
          | inr narrow ↦
              let short : length str < length b = ground (arith, narrow) in
              (
                linked,
                e,
                inr (
                    inl (
                      r,
                      short,
                      rw (e, insert, rejected, r)
                          (insert_text_overlap box a b str select from_program s fits short),
                    )),
              )
        ]
      ]
