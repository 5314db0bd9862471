-- ===== src/Object/Mirror/Passes.antt =====
-- The two passes over a message, and one that only skips, on the fields of one object.
use whoa.Base.{
  ℕ, zero, suc, ◌+◌, ◌-◌, ◌*◌, ◌/◌, ◌<◌, ◌≤◌, ◌≡◌, refl, ap, ◌∙◌, sym, arith, leb, Bool, true,
  false, Bool-cases, inl, inr, some, List, length,
}
use mathlib.Core.Option.{some-injective, none-ne-some}
use whoa.Object.DataStore.{DataStore}
use whoa.Object.ClientObject.{ClientObject, get_type, reenable}
use whoa.Object.Mirror.{
  start_walk, is_mask_bit_set, get_num_dword_blocks, extract_dirty_masks,
  fill_in_partial_object_data, skip_partial_object_update, call_mirror_object,
}
use whoa.Object.Mirror.Chain.{get_num_dword_blocks-le}
use whoa.Object.Mirror.Masks.{
  changes, count_changes, words, Extracted, no_change, extract_dirty_masks_lem, extract_too_many,
}
use whoa.Object.Mirror.Fill.{
  FilledTo, FilledTo-type, FilledTo-none, field_after, fill_blocks_lem, mirror_loop_lem,
  skip_blocks_lem,
}

-- Behind the last change the count stays.
count_changes_flat :
    (masks : List ℕ) (n k : ℕ)
    → ((i : ℕ) → n ≤ i → i < k + n → changes masks i ≡ false)
    → count_changes masks (k + n) ≡ count_changes masks n
count_changes_flat masks n zero h = let e : 0 + n ≡ n = omega arith in ap (count_changes masks) e
count_changes_flat masks n (suc k) h =
    let e : suc k + n ≡ suc (k + n) = omega arith in
    let here : changes masks (k + n) ≡ false = h (k + n) (omega arith) (omega arith) in
    ap (count_changes masks) e
    ∙ rw here (count_changes_flat masks n k (λ i a b. h i a (omega (arith, b))))

count_changes_up :
    (masks : List ℕ) (n : ℕ)
    → n ≤ 1344
    → ((i : ℕ) → n ≤ i → i < 1344 → changes masks i ≡ false)
    → count_changes masks n ≡ count_changes masks 1344
count_changes_up masks n h flat =
    let e : 1344 - n + n ≡ 1344 = omega (arith, h) in
    sym (count_changes_flat masks n (1344 - n) (λ i a b. flat i a (omega (arith, b, h))))
    ∙ ap (count_changes masks) e

module _ (d : DataStore) (s : d.Store) (m : ℕ × List ℕ) where
  -- The message after its masks.
  abbrev after_masks : d.Store
  after_masks = (extract_dirty_masks d s).1

  extracted : (extract_dirty_masks d s).0 ≡ some m → Extracted d s m after_masks
  extracted e = elim (Bool-cases (leb (d.get 1 s).0 42)) [
    | inl fine ↦
        let (m', e', x) = extract_dirty_masks_lem d s (ground (arith, fine)) in
        let same : m' ≡ m = some-injective m' m (sym e' ∙ e) in rw same at x
    | inr over ↦
        let fails = extract_too_many d s (ground (arith, over)) in
        absurd (none-ne-some m (sym (ap (λ r. r.0) fails) ∙ e))
  ]

  module _ (active guid : ℕ) (o : ClientObject) (zero_zero_bits : Bool) where
    abbrev blocks : ℕ
    blocks = get_num_dword_blocks active (get_type o) guid

    -- A message with masks for an object that has room for the fields of its type, and that writes
    -- no other type, is filled in without leaving an array: each field below the end is the number
    -- that the message has for it, in order, or zero, or what it was, as the flag says; the others
    -- are kept; and the message is read over exactly these numbers.
    pub fill_in_partial_object_data_lem :
        (extract_dirty_masks d s).0 ≡ some m
        → blocks ≤ length o.storage
        → field_after d m.1 after_masks zero_zero_bits o.storage 2 ≡ get_type o
        → (o' : ClientObject) × (fill_in_partial_object_data d active o guid zero_zero_bits s
            ≡ some (true, o', words d (count_changes m.1 blocks) after_masks))
          × FilledTo d m.1 after_masks zero_zero_bits blocks o o'
    unfolding fill_in_partial_object_data
    fill_in_partial_object_data_lem e room keeps =
        let x = extracted e in
        let (o', filled, f) =
          fill_blocks_lem d m.1 after_masks zero_zero_bits active guid blocks o x.all_masks refl
            room keeps blocks 0 start_walk o (omega arith) (refl, omega arith)
            (FilledTo-none d m.1 after_masks zero_zero_bits o) in
        (o', rw (fill_in_partial_object_data, e, filled) refl, f)

    -- For a message with masks for an object that has room for the fields of its type, and that
    -- writes no other type: it is filled in, and the handlers of the second pass, on the object as
    -- it is then, succeed and read the same message to the same place.
    pub call_mirror_object-fill :
        (extract_dirty_masks d s).0 ≡ some m
        → blocks ≤ length o.storage
        → field_after d m.1 after_masks zero_zero_bits o.storage 2 ≡ get_type o
        → (o' : ClientObject) × (t : d.Store) × (fill_in_partial_object_data d active o guid
              zero_zero_bits s
            ≡ some (true, o', t))
          × (call_mirror_object d active guid (some o') s ≡ some (true, t))
    unfolding call_mirror_object
    call_mirror_object-fill e room keeps =
        let x = extracted e in
        let (o', filled, f) = fill_in_partial_object_data_lem e room keeps in
        let same = FilledTo-type d m.1 after_masks zero_zero_bits blocks o o' f keeps in
        let mirrored =
          mirror_loop_lem d m.1 after_masks active guid blocks (get_type o) x.all_masks refl blocks
            0 start_walk (omega arith) (refl, omega arith) in
        (
          o',
          words d (count_changes m.1 blocks) after_masks,
          filled,
          rw (call_mirror_object, e, same, mirrored) refl,
        )

    -- For a message with masks for an object that has room for the fields of its type, that writes
    -- no other type and that changes no field behind the object's: it is filled in, and skipping
    -- it ends at the same place.
    pub skip_partial_object_update-fill :
        (extract_dirty_masks d s).0 ≡ some m
        → blocks ≤ length o.storage
        → field_after d m.1 after_masks zero_zero_bits o.storage 2 ≡ get_type o
        → ((i : ℕ) → blocks ≤ i → i < 1344 → changes m.1 i ≡ false)
        → (o' : ClientObject) × (t : d.Store) × (fill_in_partial_object_data d active o guid
              zero_zero_bits s
            ≡ some (true, o', t))
          × (skip_partial_object_update d s ≡ some (true, t))
    unfolding skip_partial_object_update
    skip_partial_object_update-fill e room keeps flat =
        let x = extracted e in
        let (o', filled, f) = fill_in_partial_object_data_lem e room keeps in
        let skipped =
          skip_blocks_lem d m.1 after_masks (m.0 * 32) x.all_masks (omega (arith, x.count_le))
            (m.0 * 32) 0 (omega arith) in
        let absent : (i : ℕ) → m.0 * 32 ≤ i → i < 1344 → changes m.1 i ≡ false = λ i a b.
          ap (λ k. is_mask_bit_set k i) (x.absent (i / 32) (omega (arith, a))) ∙ no_change i in
        let counts : count_changes m.1 (m.0 * 32) ≡ count_changes m.1 blocks =
          count_changes_up m.1 (m.0 * 32) (omega (arith, x.count_le)) absent
          ∙ sym (
              count_changes_up m.1 blocks
                (omega (arith, get_num_dword_blocks-le active (get_type o) guid)) flat) in
        (
          o',
          words d (count_changes m.1 blocks) after_masks,
          filled,
          rw (skip_partial_object_update, e, skipped)
              (ap (λ k. some (true, words d k after_masks)) counts),
        )

module _ (d : DataStore) where
  pub call_mirror_object-reenable :
      (active guid : ℕ) (o : ClientObject) (s : d.Store)
      → call_mirror_object d active guid (some (reenable o)) s
        ≡ call_mirror_object d active guid (some o) s
  unfolding call_mirror_object
  call_mirror_object-reenable active guid o s = refl
