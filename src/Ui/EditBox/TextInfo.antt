-- ===== src/Ui/EditBox/TextInfo.antt =====
-- The entries that UpdateTextInfo writes.
use whoa.Base.{
  ℕ, zero, suc, ◌+◌, ◌-◌, ◌<◌, ◌≤◌, ◌≡◌, refl, sym, ap, ◌∙◌, arith, not, ◌&&◌, ◌||◌, Bool, false,
  List, [], ◌∷◌, ◌++◌, some, set, drop, length, replicate, length-append, length-drop, append_assoc,
  lt→ltb,
}
use whoa.Font.QuotedCode.{TextLibrary, TextLibraryLaws, IsText, determine_quoted_code}
use whoa.Font.QuotedCode.Advance.{determine_quoted_code-advance, drop-IsText}
use whoa.Ui.EditBox.{
  EditBox, write_at, c_string, info_entry, begins_link, ends_link, update_info, update_text_info,
}

module _ (u : TextLibrary) where
  -- The codes of a text one after another, each with the bytes it takes: its entry, and a zero for
  -- every further byte. The links are counted from where a text is inside one or not.
  pub layout : ℕ → Bool → List ℕ → List ℕ
  layout fuel link [] = []
  layout zero link (b ∷ bs) = []
  layout (suc fuel) link (b ∷ bs) =
      let q = determine_quoted_code u (b ∷ bs) 0 in
      let inside = link || begins_link q.code in
      info_entry inside q
      ∷ (replicate (q.advance - 1) 0
          ++ layout fuel (inside && not (ends_link q.code)) (drop q.advance (b ∷ bs)))

pub write_at-middle :
    (p rest : List ℕ) (x v : ℕ) → write_at (p ++ (x ∷ rest)) (length p) v ≡ some (p ++ (v ∷ rest))
unfolding write_at
write_at-middle p rest x v =
    rw
      (
        lt→ltb (length p) (length (p ++ (x ∷ rest))) (omega (arith, length-append p (x ∷ rest))),
        set_middle p,
      )
      refl
  where
    set_middle : (q : List ℕ) → set (q ++ (x ∷ rest)) (length q) v ≡ q ++ (v ∷ rest)
    set_middle [] = refl
    set_middle (y ∷ q) = ap (◌∷◌ y) (set_middle q)

pub length-replicate : (n v : ℕ) → length (replicate n v) ≡ n
length-replicate zero v = refl
length-replicate (suc n) v = ap suc (length-replicate n v)

replicate_split : (a b v : ℕ) → replicate (a + b) v ≡ replicate a v ++ replicate b v
replicate_split zero b v = ap (λ n. replicate n v) (omega arith)
replicate_split (suc a) b v =
    let step : suc a + b ≡ suc (a + b) = omega arith in
    ap (λ n. replicate n v) step ∙ ap (◌∷◌ v) (replicate_split a b v)

module _ (u : TextLibrary) (laws : TextLibraryLaws u) where
  update_info-layout :
      (fuel room : ℕ) (link : Bool) (p text : List ℕ)
      → IsText text
      → length text ≤ fuel
      → length text ≤ room
      → update_info u fuel (length p) link (p ++ replicate room 0) text
        ≡ some (p ++ (layout u fuel link text ++ replicate (room - length text) 0))
  unfolding update_info layout
  update_info-layout fuel room link p [] h l k = ap (λ n. some (p ++ replicate n 0)) (omega arith)
  update_info-layout zero room link p (b ∷ bs) h l k = absurd (omega arith)
  update_info-layout (suc fuel) zero link p (b ∷ bs) h l k = absurd (omega arith)
  update_info-layout (suc fuel) (suc room) link p (b ∷ bs) h l k =
      let q = determine_quoted_code u (b ∷ bs) 0 in
      let bounds = determine_quoted_code-advance u laws (b ∷ bs) 0 h (omega arith) in
      let inside = link || begins_link q.code in
      let entry = info_entry inside q in
      let next = drop q.advance (b ∷ bs) in
      let shorter : length next ≡ suc (length bs) - q.advance = length-drop q.advance (b ∷ bs) in
      let p' = p ++ (entry ∷ replicate (q.advance - 1) 0) in
      let place : length p + q.advance ≡ length p' = omega (
        arith,
        length-append p (entry ∷ replicate (q.advance - 1) 0),
        length-replicate (q.advance - 1) 0,
      ) in
      let left : replicate room 0
          ≡ replicate (q.advance - 1) 0 ++ replicate (suc room - q.advance) 0 =
        ap (λ n. replicate n 0) (omega arith)
        ∙ replicate_split (q.advance - 1) (suc room - q.advance) 0 in
      let regroup : p ++ (entry ∷ replicate room 0) ≡ p' ++ replicate (suc room - q.advance) 0 =
        ap (λ r. p ++ (entry ∷ r)) left
        ∙ sym (
            append_assoc p (entry ∷ replicate (q.advance - 1) 0)
              (replicate (suc room - q.advance) 0)) in
      let ih =
        update_info-layout fuel (suc room - q.advance) (inside && not (ends_link q.code)) p' next
          (drop-IsText q.advance (b ∷ bs) h) (omega arith) (omega arith) in
      let tail = layout u fuel (inside && not (ends_link q.code)) next in
      let zeroes = replicate (suc room - suc (length bs)) 0 in
      let left_room : suc room - q.advance - length next ≡ suc room - suc (length bs) =
        omega arith in
      let joined : p' ++ (tail ++ zeroes)
          ≡ p ++ ((entry ∷ (replicate (q.advance - 1) 0 ++ tail)) ++ zeroes) =
        append_assoc p (entry ∷ replicate (q.advance - 1) 0) (tail ++ zeroes)
        ∙ ap (λ r. p ++ (entry ∷ r))
            (sym (append_assoc (replicate (q.advance - 1) 0) tail zeroes)) in
      rw (write_at-middle p (replicate room 0) 0 entry, update_info, regroup, place)
        (ih ∙ ap some (ap (λ n. p' ++ (tail ++ replicate n 0)) left_room ∙ joined))

  pub layout-length :
      (fuel : ℕ) (link : Bool) (text : List ℕ)
      → IsText text
      → length text ≤ fuel
      → length (layout u fuel link text) ≡ length text
  unfolding layout
  layout-length fuel link [] h l = refl
  layout-length zero link (b ∷ bs) h l = absurd (omega arith)
  layout-length (suc fuel) link (b ∷ bs) h l =
      let q = determine_quoted_code u (b ∷ bs) 0 in
      let bounds = determine_quoted_code-advance u laws (b ∷ bs) 0 h (omega arith) in
      let inside = (link || begins_link q.code) && not (ends_link q.code) in
      let next = drop q.advance (b ∷ bs) in
      let shorter = length-drop q.advance (b ∷ bs) in
      let zeroes : List ℕ = replicate (q.advance - 1) 0 in
      let ih =
        layout-length fuel inside next (drop-IsText q.advance (b ∷ bs) h)
          (omega (arith, shorter)) in
      let count = length-replicate (q.advance - 1) 0 in
      omega (arith, ih, count, shorter, length-append zeroes (layout u fuel inside next))

  -- For a box whose buffer holds a text of bytes and its terminating zero, UpdateTextInfo ends and
  -- stays in the buffers: the entries are those of the codes of the text, one after another, with a
  -- zero for every further byte and for what is behind the text; nothing else changes.
  pub update_text_info_lem :
      (box : EditBox)
      → IsText (c_string box.text)
      → length (c_string box.text) < box.text_size
      → update_text_info u box
        ≡ some (record box {
          text_info =
              layout u (length (c_string box.text)) false (c_string box.text)
              ++ replicate (box.text_size - length (c_string box.text)) 0;
        })
  unfolding update_text_info
  update_text_info_lem box h l =
      let n = length (c_string box.text) in
      rw
        (
          update_info-layout n box.text_size false [] (c_string box.text) h (omega arith)
              (omega arith),
          update_text_info,
        )
        refl
