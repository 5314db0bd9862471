-- ===== src/Ui/EditBox/Shows.antt =====
-- What an edit box shows, and growing its buffers.
use whoa.Base.{
  ℕ, ◌+◌, ◌-◌, ◌*◌, ◌/◌, ◌%◌, ◌^◌, ◌<◌, ◌≤◌, ◌≡◌, refl, sym, ap, ◌∙◌, arith, leb, ◌==◌, false, List,
  [], ◌∷◌, ◌++◌, drop, length, replicate, append_assoc, take-append-drop, leb→le, Bool-cases, inl,
  inr,
}
use whoa.Font.QuotedCode.{TextLibrary, IsText}
use whoa.Ui.EditBox.{Memory, MemoryLaws, EditBox, c_string, grow_text}
use whoa.Ui.EditBox.TextInfo.{layout}

-- A box shows a text before its cursor and one behind: both are bytes, the buffer holds them and a
-- terminating zero, and the buffers have the size that is recorded.
pub record Shows (box : EditBox) (a b : List ℕ) : Type 0 where
  pub before : IsText a
  pub behind : IsText b
  pub cursor : box.cursor_pos ≡ length a
  pub size : box.text_length ≡ length a + length b
  pub text : (rest : List ℕ) × (box.text ≡ a ++ (b ++ (0 ∷ rest)))
  pub text_room : length box.text ≡ box.text_size
  pub info_room : length box.text_info ≡ box.text_size

-- Its entries are those of its codes.
abbrev pub IsLaidOut : TextLibrary → EditBox → List ℕ → Type 0
IsLaidOut u box t =
    box.text_info ≡ layout u (length t) false t ++ replicate (box.text_size - length t) 0

pub append-IsText : (a b : List ℕ) → IsText a → IsText b → IsText (a ++ b)
append-IsText [] b h k = k
append-IsText (x ∷ a) b h k = (h.0, append-IsText a b h.1 k)

pub c_string-append : (t rest : List ℕ) → IsText t → c_string (t ++ (0 ∷ rest)) ≡ t
c_string-append [] rest h = refl
c_string-append (x ∷ t) rest h =
    let byte : (x == 0) ≡ false = let p = h.0.0 in ground arith in
    rw byte (ap (◌∷◌ x) (c_string-append t rest h.1))

module _ (m : Memory) (laws : MemoryLaws m) where
  -- What growing leaves: the text and a zero, and room for what is asked.
  pub grow_text_lem :
      (box : EditBox) (a b : List ℕ) (size : ℕ)
      → Shows box a b
      → size + 32 < 2 ^ 31
      → (text_size : ℕ) × (rest info : List ℕ) × (grow_text m box size
          ≡ record box { text_size = text_size; text = a ++ (b ++ (0 ∷ rest)); text_info = info })
        × (length (a ++ (b ++ (0 ∷ rest))) ≡ text_size)
        × (length info ≡ text_size)
        × (size + 1 ≤ text_size)
  unfolding grow_text
  grow_text_lem box a b size s h =
      let (rest, e) = s.text in
      let text_size = (size + 32) % 2 ^ 32 / 32 * 32 in
      elim (Bool-cases (leb (size + 1) box.text_size)) [
        | inl fits ↦ (
          box.text_size,
          rest,
          box.text_info,
          rw (fits, grow_text) (ap (λ t. record box { text = t }) e),
          sym (ap length e) ∙ s.text_room,
          s.info_room,
          leb→le _ _ fits,
        )
        | inr short ↦
            let larger : length box.text ≤ text_size = let room = s.text_room in ground arith in
            let new = m.realloc box.text text_size in
            let more = drop (length box.text) new in
            let kept : new ≡ a ++ (b ++ (0 ∷ (rest ++ more))) =
              sym (take-append-drop (length box.text) new)
              ∙ ap (λ t. t ++ more) (laws.kept box.text text_size larger ∙ e)
              ∙ append_assoc a (b ++ (0 ∷ rest)) more
              ∙ ap (◌++◌ a) (append_assoc b (0 ∷ rest) more) in
            let info = m.realloc box.text_info text_size in
            (
              text_size,
              rest ++ more,
              info,
              rw (short, grow_text)
                  (ap (λ t. record box { text_size = text_size; text = t; text_info = info }) kept),
              sym (ap length kept) ∙ laws.size box.text text_size,
              laws.size box.text_info text_size,
              omega (arith, h),
            )
      ]
