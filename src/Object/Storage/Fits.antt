-- ===== src/Object/Storage/Fits.antt =====
-- The fields of an object fit in the memory that it is given.
use whoa.Base.{
  ℕ, true, false, ap, ◌⊎◌, ◌+◌, ◌*◌, ◌^◌, ◌<◌, ◌≤◌, ◌≡◌, ◌≢◌, ◌==◌, refl, arith, Bool-cases, inl,
  inr, some,
}
use mathlib.Core.Option.{some-injective, none-ne-some}
use whoa.Object.Types.{ObjectTypeId, hier_type}
use whoa.Object.Fields.{
  Fields, data_size, data_size_saved, object_fields, item_fields, container_fields, unit_fields,
  player_fields, remote_player_fields, game_object_fields, dynamic_object_fields, corpse_fields,
}
use whoa.Object.Mirror.{get_num_dword_blocks}
use whoa.Object.Storage.{
  Layout, layout, fields_of, setup_object_storage, obj_total_size, heap_of, bytes_of,
  allocated_size,
}

-- The fields of an object are those that the mirror goes through, and not more than a player's.
abbrev pub FieldsOf : ObjectTypeId → ℕ → ℕ → Fields → Type 0
FieldsOf id guid active f =
    (fields_of (guid == active) id ≡ some f)
    × (get_num_dword_blocks active (hier_type id 0) guid ≡ f.total_fields)
    × (6 ≤ f.total_fields)
    × (f.total_fields ≤ 1326)
    × (f.total_fields_saved ≤ 1169)

pub fields_lem :
    (id : ObjectTypeId) (guid active : ℕ)
    → id ≢ ObjectTypeId.num_client_object_types
    → (f : Fields) × FieldsOf id guid active f
fields_lem ObjectTypeId.object guid active real =
    (object_fields, (refl, refl, omega arith, omega arith, omega arith))
fields_lem ObjectTypeId.item guid active real =
    (item_fields, (refl, refl, omega arith, omega arith, omega arith))
fields_lem ObjectTypeId.container guid active real =
    (container_fields, (refl, refl, omega arith, omega arith, omega arith))
fields_lem ObjectTypeId.unit guid active real =
    (unit_fields, (refl, refl, omega arith, omega arith, omega arith))
fields_lem ObjectTypeId.player guid active real = elim (Bool-cases (guid == active)) [
  | inl mine ↦ (player_fields, (rw mine refl, rw mine refl, omega arith, omega arith, omega arith))
  | inr other ↦
      (remote_player_fields, (rw other refl, rw other refl, omega arith, omega arith, omega arith))
]
fields_lem ObjectTypeId.game_object guid active real =
    (game_object_fields, (refl, refl, omega arith, omega arith, omega arith))
fields_lem ObjectTypeId.dynamic_object guid active real =
    (dynamic_object_fields, (refl, refl, omega arith, omega arith, omega arith))
fields_lem ObjectTypeId.corpse guid active real =
    (corpse_fields, (refl, refl, omega arith, omega arith, omega arith))
fields_lem ObjectTypeId.num_client_object_types guid active real = absurd (real refl)

module _ (class_size : ObjectTypeId → ℕ) where
  -- The case of an id, and the size on its heap, are those of its fields.
  setup_lem :
      (id : ObjectTypeId) (guid active : ℕ) (f : Fields)
      → fields_of (guid == active) id ≡ some f
      → setup_object_storage class_size id guid active ≡ some (layout (class_size id) f)
  unfolding setup_object_storage
  setup_lem ObjectTypeId.object guid active f own =
      ap (λ g. some (layout (class_size ObjectTypeId.object) g)) (some-injective _ f own)
  setup_lem ObjectTypeId.item guid active f own =
      ap (λ g. some (layout (class_size ObjectTypeId.item) g)) (some-injective _ f own)
  setup_lem ObjectTypeId.container guid active f own =
      ap (λ g. some (layout (class_size ObjectTypeId.container) g)) (some-injective _ f own)
  setup_lem ObjectTypeId.unit guid active f own =
      ap (λ g. some (layout (class_size ObjectTypeId.unit) g)) (some-injective _ f own)
  setup_lem ObjectTypeId.player guid active f own = elim (Bool-cases (guid == active)) [
    | inl mine ↦
        let same = rw mine at own in
        rw (setup_object_storage, mine)
          (ap (λ g. some (layout (class_size ObjectTypeId.player) g)) (some-injective _ f same))
    | inr other ↦
        let same = rw other at own in
        rw (setup_object_storage, other)
          (ap (λ g. some (layout (class_size ObjectTypeId.player) g)) (some-injective _ f same))
  ]
  setup_lem ObjectTypeId.game_object guid active f own =
      ap (λ g. some (layout (class_size ObjectTypeId.game_object) g)) (some-injective _ f own)
  setup_lem ObjectTypeId.dynamic_object guid active f own =
      ap (λ g. some (layout (class_size ObjectTypeId.dynamic_object) g)) (some-injective _ f own)
  setup_lem ObjectTypeId.corpse guid active f own =
      ap (λ g. some (layout (class_size ObjectTypeId.corpse) g)) (some-injective _ f own)
  setup_lem ObjectTypeId.num_client_object_types guid active f own = absurd (none-ne-some f own)

  heap_lem :
      (id : ObjectTypeId) (f : Fields)
      → fields_of false id ≡ some f
      → id ≢ ObjectTypeId.object
      → heap_of class_size id ≡ some (bytes_of (class_size id) f)
  unfolding obj_total_size
  heap_lem ObjectTypeId.object f own has = absurd (has refl)
  heap_lem ObjectTypeId.item f own has =
      ap (λ g. some (bytes_of (class_size ObjectTypeId.item) g)) (some-injective _ f own)
  heap_lem ObjectTypeId.container f own has =
      ap (λ g. some (bytes_of (class_size ObjectTypeId.container) g)) (some-injective _ f own)
  heap_lem ObjectTypeId.unit f own has =
      ap (λ g. some (bytes_of (class_size ObjectTypeId.unit) g)) (some-injective _ f own)
  heap_lem ObjectTypeId.player f own has =
      ap (λ g. some (bytes_of (class_size ObjectTypeId.player) g)) (some-injective _ f own)
  heap_lem ObjectTypeId.game_object f own has =
      ap (λ g. some (bytes_of (class_size ObjectTypeId.game_object) g)) (some-injective _ f own)
  heap_lem ObjectTypeId.dynamic_object f own has =
      ap (λ g. some (bytes_of (class_size ObjectTypeId.dynamic_object) g)) (some-injective _ f own)
  heap_lem ObjectTypeId.corpse f own has =
      ap (λ g. some (bytes_of (class_size ObjectTypeId.corpse) g)) (some-injective _ f own)
  heap_lem ObjectTypeId.num_client_object_types f own has = absurd (none-ne-some f own)

  -- For every id of a type, ID_OBJECT only for the active player, whose class is not larger than a
  -- player's and below 2 ^ 31 bytes: the fields set up are as many as the mirror goes through, they
  -- end, and their zeroing ends, where the saved ones start, and these end inside the memory that was
  -- allocated.
  pub setup_object_storage-fits :
      (id : ObjectTypeId) (guid active : ℕ)
      → id ≢ ObjectTypeId.num_client_object_types
      → (id ≢ ObjectTypeId.object) ⊎ ((guid == active) ≡ true)
      → class_size id ≤ class_size ObjectTypeId.player
      → class_size ObjectTypeId.player < 2 ^ 31
      → (f : Fields) × (l : Layout) × (n : ℕ) × (fields_of (guid == active) id ≡ some f)
        × (setup_object_storage class_size id guid active ≡ some l)
        × (allocated_size class_size id guid active ≡ some n)
        × (l.storage + get_num_dword_blocks active (hier_type id 0) guid * 4 ≡ l.saved)
        × (l.storage + l.zeroed ≡ l.saved)
        × (l.saved + f.total_fields_saved * 4 ≤ n)
  unfolding allocated_size
  setup_object_storage-fits id guid active real has smaller small =
      let (f, (own, blocks, ge, le, le_saved)) = fields_lem id guid active real in
      let set_up = setup_lem id guid active f own in
      elim (Bool-cases (guid == active)) [
        | inl mine ↦ (
          f,
          layout (class_size id) f,
          class_size ObjectTypeId.player + data_size player_fields + data_size_saved player_fields,
          own,
          set_up,
          rw mine refl,
          omega (arith, blocks),
          omega (arith, le),
          omega (arith, le, le_saved, smaller),
        )
        | inr other ↦
            let shared = rw other at own in
            let on_heap : id ≢ ObjectTypeId.object = elim has [
              | inl no_object ↦ no_object
              | inr mine ↦ absurd (ground (arith, other, mine))
            ] in
            (
              f,
              layout (class_size id) f,
              bytes_of (class_size id) f,
              own,
              set_up,
              rw other (heap_lem id f shared on_heap),
              omega (arith, blocks),
              omega (arith, le),
              omega (arith, le, le_saved, smaller, small),
            )
      ]
