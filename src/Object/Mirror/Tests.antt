-- ===== src/Object/Mirror/Tests.antt =====
-- The mirror on an object and a message in memory.
use whoa.Base.{
  length, ℕ, ◌≡◌, ◌≤◌, ◌<◌, refl, arith, List, [], ◌∷◌, replicate, true, false, some, suc, ◌/◌, ◌%◌,
  ◌-◌, ◌==◌, not, get_or, bit, bit_above, ltb, Bool-cases, inl, inr, ap, ◌∙◌,
}
use whoa.Object.Tests.{Memory, memory}
use whoa.Object.Types.{ObjectTypeId, hier_type}
use whoa.Object.ClientObject.{ClientObject}
use whoa.Object.Fields.{Fields}
use whoa.Object.Storage.{fields_of}
use whoa.Object.Storage.New.{fill_new_object}
use whoa.Object.Storage.New.Room.{typed, fill_new_object_lem}
use whoa.Object.Mirror.{
  get_masks, is_mask_bit_set, extract_dirty_masks, fill_in_partial_object_data, call_mirror_object,
  skip_partial_object_update,
}
use whoa.Object.Mirror.Masks.{
  words, count_changes, changes, get_or-replicate, no_change, is_mask_bit_set-bit,
}
use whoa.Object.Mirror.Fill.{FilledTo}
use whoa.Object.Mirror.Passes.{
  fill_in_partial_object_data_lem, call_mirror_object-fill, skip_partial_object_update-fill,
}

-- An object without a class of its own, with its type and five other fields.
abbrev plain_object : ClientObject
plain_object = record {
  key = 7;
  storage = 7 ∷ 0 ∷ 1 ∷ 40 ∷ 50 ∷ 60 ∷ [];
  type_id = ObjectTypeId.object;
  disable_time_ms = 0;
  lock_count = 0;
  disabled = false;
  in_reenable = false;
  post_inited = false;
  disable_pending = false;
}

-- One mask, for the fields 3 and 5, and their numbers.
abbrev changed_fields : Memory
changed_fields = (1 ∷ 0x28 ∷ 0 ∷ 0 ∷ 0 ∷ 8 ∷ 0 ∷ 0 ∷ 0 ∷ 9 ∷ 0 ∷ 0 ∷ 0 ∷ [], 0)

abbrev changed_masks : ℕ × List ℕ
changed_masks = (1, 0x28 ∷ replicate 41 0)

fill_in_partial_object_data_lem_example :
    (o' : ClientObject) × (fill_in_partial_object_data memory 0 plain_object 7 false changed_fields
      ≡ some (true, o', (changed_fields.0, 13)))
    × FilledTo memory changed_masks.1 (changed_fields.0, 5) false 6 plain_object o'
unfolding extract_dirty_masks get_masks
fill_in_partial_object_data_lem_example =
    fill_in_partial_object_data_lem memory changed_fields changed_masks 0 7 plain_object false refl
      (omega arith) refl

call_mirror_object-fill_example :
    (o' : ClientObject) × (t : Memory) × (fill_in_partial_object_data memory 0 plain_object 7 false
        changed_fields
      ≡ some (true, o', t))
    × (call_mirror_object memory 0 7 (some o') changed_fields ≡ some (true, t))
unfolding extract_dirty_masks get_masks
call_mirror_object-fill_example =
    call_mirror_object-fill memory changed_fields changed_masks 0 7 plain_object false refl
      (omega arith) refl

nothing_behind : (i : ℕ) → 6 ≤ i → i < 1344 → changes changed_masks.1 i ≡ false
nothing_behind i h k = elim (Bool-cases (ltb i 32)) [
  | inl first ↦
      let word : i / 32 ≡ 0 = ground (arith, first) in
      let place : i % 32 ≡ i = ground (arith, first) in
      ap (λ j. is_mask_bit_set (get_or changed_masks.1 j 0) i) word
      ∙ is_mask_bit_set-bit 0x28 i
      ∙ ap (λ j. not (bit 0x28 j == 0)) place
      ∙ ap (λ x. not (x == 0)) (bit_above 6 i 0x28 (omega arith) h)
  | inr later ↦
      let word : i / 32 ≡ suc (i / 32 - 1) = ground (arith, later) in
      ap (λ j. is_mask_bit_set (get_or changed_masks.1 j 0) i) word
      ∙ ap (λ v. is_mask_bit_set v i) (get_or-replicate 41 (i / 32 - 1))
      ∙ no_change i
]

skip_partial_object_update-fill_example :
    (o' : ClientObject) × (t : Memory) × (fill_in_partial_object_data memory 0 plain_object 7 false
        changed_fields
      ≡ some (true, o', t))
    × (skip_partial_object_update memory changed_fields ≡ some (true, t))
unfolding extract_dirty_masks get_masks
skip_partial_object_update-fill_example =
    skip_partial_object_update-fill memory changed_fields changed_masks 0 7 plain_object false refl
      (omega arith) refl nothing_behind

fill_new_object_lem_example :
    (f : Fields) × (o' : ClientObject) × (fields_of (7 == 0) ObjectTypeId.corpse ≡ some f)
    × (length o'.storage ≡ 36)
    × (fill_new_object memory 0 ObjectTypeId.corpse 7 changed_fields
        ≡ some (
          true,
          o',
          words memory (count_changes changed_masks.1 f.total_fields) (changed_fields.0, 5),
        ))
    × FilledTo memory changed_masks.1
        (changed_fields.0, 5)
        false
        f.total_fields
        (typed ObjectTypeId.corpse 7 f)
        o'
unfolding extract_dirty_masks get_masks
fill_new_object_lem_example =
    fill_new_object_lem memory 0 7 ObjectTypeId.corpse changed_fields changed_masks
      (λ e. omega (arith, ap (λ id. hier_type id 0) e)) refl (λ fields e. e)
