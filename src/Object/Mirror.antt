-- ===== src/Object/Mirror.antt =====
-- src/object/client/Mirror.cpp: which fields of an object a message changes, and writing them.
pub mod Chain
pub mod Masks
pub mod Fill
pub mod Passes
mod Tests
use whoa.Base.{
  ℕ, zero, suc, ◌+◌, ◌-◌, ◌*◌, ◌/◌, ◌%◌, ◌^◌, ◌==◌, ltb, leb, bit_and, if◌then◌else◌, Bool, true,
  false, not, List, [], ◌∷◌, replicate, ◌++◌, length, Option, none, some, get_or,
}
use whoa.Object.DataStore.{DataStore, pure, ◌>>=◌}
use whoa.Object.Types.{ObjectTypeId}
use whoa.Object.Fields.{
  Fields, object_fields, item_fields, container_fields, unit_fields, player_fields,
  remote_player_fields, game_object_fields, dynamic_object_fields, corpse_fields,
}
use whoa.Object.ClientObject.{ClientObject, get_type, set_block}

abbrev pub max_change_masks : ℕ
max_change_masks = 42

-- `s_objMirrorBlocks`, which has no entry at the end of the types.
abbrev pub mirror_blocks : ObjectTypeId → Option ℕ
mirror_blocks ObjectTypeId.object = some object_fields.total_fields
mirror_blocks ObjectTypeId.item = some item_fields.total_fields
mirror_blocks ObjectTypeId.container = some container_fields.total_fields
mirror_blocks ObjectTypeId.unit = some unit_fields.total_fields
mirror_blocks ObjectTypeId.player = some player_fields.total_fields
mirror_blocks ObjectTypeId.game_object = some game_object_fields.total_fields
mirror_blocks ObjectTypeId.dynamic_object = some dynamic_object_fields.total_fields
mirror_blocks ObjectTypeId.corpse = some corpse_fields.total_fields
mirror_blocks ObjectTypeId.num_client_object_types = none

-- `GetNumDwordBlocks`, for the active player and a type and GUID.
abbrev pub get_num_dword_blocks : ℕ → ℕ → ℕ → ℕ
get_num_dword_blocks active type guid =
    if type == 0x1
    then object_fields.total_fields
    else if type == 0x3
    then item_fields.total_fields
    else if type == 0x7
    then container_fields.total_fields
    else if type == 0x9
    then unit_fields.total_fields
    else if type == 0x19
    then if guid == active then player_fields.total_fields else remote_player_fields.total_fields
    else if type == 0x21
    then game_object_fields.total_fields
    else if type == 0x41
    then dynamic_object_fields.total_fields
    else if type == 0x81
    then corpse_fields.total_fields
    else 0

-- The id behind the one of an object, in a switch on the current id.
abbrev after_object : ObjectTypeId → ObjectTypeId → ObjectTypeId
after_object next ObjectTypeId.object = next
after_object next cur = ObjectTypeId.num_client_object_types

abbrev after_item : ObjectTypeId → ObjectTypeId
after_item ObjectTypeId.object = ObjectTypeId.item
after_item ObjectTypeId.item = ObjectTypeId.container
after_item cur = ObjectTypeId.num_client_object_types

abbrev after_unit : ObjectTypeId → ObjectTypeId
after_unit ObjectTypeId.object = ObjectTypeId.unit
after_unit ObjectTypeId.unit = ObjectTypeId.player
after_unit cur = ObjectTypeId.num_client_object_types

-- `IncTypeID`, for an object's type.
abbrev pub inc_type_id : ℕ → ObjectTypeId → ObjectTypeId
inc_type_id type cur =
    if type == 0x3
    then after_item cur
    else if type == 0x7
    then after_item cur
    else if type == 0x9
    then after_unit cur
    else if type == 0x19
    then after_unit cur
    else if type == 0x21
    then after_object ObjectTypeId.game_object cur
    else if type == 0x41
    then after_object ObjectTypeId.dynamic_object cur
    else if type == 0x81
    then after_object ObjectTypeId.corpse cur
    else ObjectTypeId.num_client_object_types

-- An entry of the masks; none out of their range.
abbrev pub mask_at : List ℕ → ℕ → Option ℕ
mask_at masks i = if ltb i (length masks) then some (get_or masks i 0) else none

-- `IsMaskBitSet`, on a mask that is there.
abbrev pub is_mask_bit_set : ℕ → ℕ → Bool
is_mask_bit_set mask block = not (bit_and mask (1 * 2 ^ (block % 32)) == 0)

-- What follows a result that is there.
abbrev pub and_then : {A B : Type 0} → Option A → (A → Option B) → Option B
and_then none f = none
and_then (some a) f = f a

-- The variables of the loop over the blocks, behind a block.
pub record Walk : Type 0 where
  pub type_id : ObjectTypeId
  pub block_offset : ℕ

-- The step to the next id, where the fields of one end.
abbrev pub walk_on : ℕ → ℕ → Walk → Option Walk
walk_on type block w = and_then (mirror_blocks w.type_id) (λ limit. some (
    if leb limit block
    then record { type_id = inc_type_id type w.type_id; block_offset = limit }
    else w))

abbrev pub start_walk : Walk
start_walk = record { type_id = ObjectTypeId.object; block_offset = 0 }

module _ (d : DataStore) where
  unfoldable pub get_masks : ℕ → d.Store → List ℕ × d.Store
  get_masks zero s = ([], s)
  get_masks (suc n) s =
      let (mask, s') = d.get 4 s in let (masks, s'') = get_masks n s' in (mask ∷ masks, s'')

  -- `ExtractDirtyMasks`: the count and the masks, or a failure.
  unfoldable pub extract_dirty_masks : d.Store → Option (ℕ × List ℕ) × d.Store
  extract_dirty_masks s =
      let (count, s') = d.get 1 s in
      if ltb max_change_masks count
      then (none, s')
      else let (masks, s'') = get_masks count s' in
        (some (count, masks ++ replicate (max_change_masks - count) 0), s'')

  -- A block that is there is read and written, another is zeroed or kept.
  pub fill_field : Bool → Bool → ℕ → ClientObject → d.Store → Option (ClientObject × d.Store)
  fill_field present zero_zero_bits block o s =
      if present
      then and_then (set_block o block (d.get 4 s).0) (λ o'. some (o', (d.get 4 s).1))
      else if zero_zero_bits
      then and_then (set_block o block 0) (λ o'. some (o', s))
      else some (o, s)

  -- The loop of FillInPartialObjectData from a block, with n blocks to go; none when it leaves an
  -- array.
  pub fill_blocks :
      List ℕ → Bool → ℕ → ℕ → Walk → ClientObject → d.Store → Option (ClientObject × d.Store)
  fill_blocks masks zero_zero_bits zero block w o s = some (o, s)
  fill_blocks masks zero_zero_bits (suc n) block w o s =
      and_then (walk_on (get_type o) block w) (λ w'. and_then (mask_at masks (block / 32)) (λ mask.
        and_then (fill_field (is_mask_bit_set mask block) zero_zero_bits block o s)
          (λ r. fill_blocks masks zero_zero_bits n (suc block) w' r.0 r.1)))

  -- `FillInPartialObjectData`: whether it succeeds, with the object and the message; none when it
  -- leaves an array.
  pub fill_in_partial_object_data :
      ℕ → ClientObject → ℕ → Bool → d.Store → Option (Bool × ClientObject × d.Store)
  fill_in_partial_object_data active o guid zero_zero_bits s = elim (extract_dirty_masks s).0 [
    | none ↦ some (false, o, (extract_dirty_masks s).1)
    | some m ↦
        and_then
          (fill_blocks m.1 zero_zero_bits (get_num_dword_blocks active (get_type o) guid) 0
            start_walk o (extract_dirty_masks s).1)
          (λ r. some (true, r.0, r.1))
  ]

  -- The loop of SkipPartialObjectUpdate.
  pub skip_blocks : List ℕ → ℕ → ℕ → d.Store → Option d.Store
  skip_blocks masks zero block s = some s
  skip_blocks masks (suc n) block s = and_then (mask_at masks (block / 32)) (λ mask.
      skip_blocks masks n (suc block) (if is_mask_bit_set mask block then (d.get 4 s).1 else s))

  -- `SkipPartialObjectUpdate`
  pub skip_partial_object_update : d.Store → Option (Bool × d.Store)
  skip_partial_object_update s = elim (extract_dirty_masks s).0 [
    | none ↦ some (false, (extract_dirty_masks s).1)
    | some m ↦
        and_then (skip_blocks m.1 (m.0 * 32) 0 (extract_dirty_masks s).1) (λ s'. some (true, s'))
  ]

  -- The loop of CallMirrorHandlers.
  pub mirror_loop : List ℕ → ℕ → ℕ → ℕ → Walk → d.Store → Option d.Store
  mirror_loop masks type zero block w s = some s
  mirror_loop masks type (suc n) block w s = and_then (walk_on type block w) (λ w'.
      and_then (mask_at masks (block / 32)) (λ mask.
        mirror_loop masks type n (suc block) w'
          (if is_mask_bit_set mask block then (d.get 4 s).1 else s)))

  -- `CallMirrorHandlers` behind the GUID, on the active object of it, if there is one.
  pub call_mirror_object : ℕ → ℕ → Option ClientObject → d.Store → Option (Bool × d.Store)
  call_mirror_object active guid none s = skip_partial_object_update s
  call_mirror_object active guid (some o) s = elim (extract_dirty_masks s).0 [
    | none ↦ some (false, (extract_dirty_masks s).1)
    | some m ↦
        and_then
          (mirror_loop m.1 (get_type o) (get_num_dword_blocks active (get_type o) guid) 0 start_walk
            (extract_dirty_masks s).1)
          (λ s'. some (true, s'))
  ]
