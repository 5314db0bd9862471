-- ===== src/Ui/EditBox/Tests.antt =====
-- Examples of edit boxes, with memory that is not cleared.
use whoa.Base.{
  ℕ, zero, suc, ◌-◌, ◌≤◌, ◌≡◌, refl, ap, ◌∙◌, arith, Bool, true, false, List, [], ◌∷◌, ◌++◌, none,
  ◌<◌, some, take, length, replicate, length-append, length-take, take-append, ◌⊎◌,
}
use whoa.Font.QuotedCode.{IsText}
use whoa.Font.QuotedCode.Tests.{characters, characters-laws}
use whoa.Ui.EditBox.{Memory, MemoryLaws, EditBox, cursor_in_link, insert, insert_flags}
use whoa.Ui.EditBox.TextInfo.{length-replicate}
use whoa.Ui.EditBox.Shows.{Shows}
use whoa.Ui.EditBox.Refusals.{refuses}
use whoa.Ui.EditBox.Insert.{Typed, insert_lem}

abbrev memory : Memory
memory = record { realloc = λ old n. take n old ++ replicate (n - length old) 205 }

take_over : (n : ℕ) (t : List ℕ) → length t ≤ n → take n t ≡ t
take_over zero [] h = refl
take_over zero (x ∷ t) h = absurd (omega arith)
take_over (suc n) [] h = refl
take_over (suc n) (x ∷ t) h = ap (◌∷◌ x) (take_over n t (omega arith))

memory-laws : MemoryLaws memory
memory-laws = record {
  size = λ old n. omega (
    arith,
    length-append (take n old) (replicate (n - length old) 205),
    length-take n old,
    length-replicate (n - length old) 205,
  );
  kept = λ old n h.
      ap (λ t. take (length old) (t ++ replicate (n - length old) 205)) (take_over n old h)
      ∙ take-append old (replicate (n - length old) 205);
}

-- "ab" with the cursor between the two.
abbrev small_box : EditBox
small_box = record {
  multiline = false;
  numeric = false;
  dirty_flags = 1;
  text = 97 ∷ 98 ∷ 0 ∷ replicate 29 205;
  text_info = 1 ∷ 1 ∷ replicate 30 0;
  text_length = 2;
  text_size = 32;
  highlight_left = 0;
  highlight_right = 0;
  cursor_pos = 1;
}

small_box-Shows : Shows small_box (97 ∷ []) (98 ∷ [])
small_box-Shows = record {
  before = ground arith;
  behind = ground arith;
  cursor = refl;
  size = refl;
  text = (replicate 29 205, refl);
  text_room = refl;
  info_room = refl;
}

-- Forty bytes, for which the buffers grow.
abbrev long_string : List ℕ
long_string = replicate 40 120

replicate-IsText : (n : ℕ) → IsText (replicate n 120)
replicate-IsText zero = tt
replicate-IsText (suc n) = (ground arith, replicate-IsText n)

insert_lem_example :
    (linked : Bool) × (cursor_in_link characters memory small_box ≡ some linked)
    × (((refuses characters characters-laws memory small_box linked long_string false ≡ true)
          × (insert characters memory small_box long_string false false ≡ some small_box))
        ⊎ (((refuses characters characters-laws memory small_box linked long_string false ≡ false)
              × (40 < 1)
              × (insert characters memory small_box long_string false false ≡ none))
            ⊎ ((refuses characters characters-laws memory small_box linked long_string false
                  ≡ false)
                × (1 ≤ 40)
                × ((box' : EditBox) × (insert characters memory small_box long_string false false
                      ≡ some box')
                    × Typed characters characters-laws memory memory-laws small_box box'
                        (97 ∷ [])
                        (98 ∷ [])
                        long_string
                        (insert_flags 1 false false)))))
insert_lem_example =
    insert_lem characters characters-laws memory memory-laws small_box (97 ∷ []) (98 ∷ [])
      long_string false false small_box-Shows (replicate-IsText 40) (omega arith)
