-- ===== src/Object/Storage.antt =====
-- The memory of an object: s_objTotalSize and ClntObjMgrAllocObject in src/object/client/ObjMgr.cpp,
-- and SetupObjectStorage in src/object/client/MessageHandlers.cpp. The sizes of the classes, which the
-- compiler chooses, are a parameter.
pub mod Fits
pub mod New
use whoa.Base.{ℕ, ◌+◌, ◌*◌, ◌%◌, ◌^◌, ◌==◌, Bool, false, if◌then◌else◌, Option, none, some}
use whoa.Object.Types.{ObjectTypeId}
use whoa.Object.Fields.{
  Fields, data_size, data_size_saved, object_fields, item_fields, container_fields, unit_fields,
  player_fields, remote_player_fields, game_object_fields, dynamic_object_fields, corpse_fields,
}

-- Where the fields and the saved fields of an object start in its memory, and how many bytes of
-- the fields are zeroed.
pub record Layout : Type 0 where
  pub storage : ℕ
  pub saved : ℕ
  pub zeroed : ℕ

-- The case of a class, behind the bytes of the class.
abbrev pub layout : ℕ → Fields → Layout
layout class_size f = record {
  storage = class_size;
  saved = class_size + f.total_fields * 4;
  zeroed = data_size f;
}

-- The fields of an id; those of another player are fewer.
abbrev pub fields_of : Bool → ObjectTypeId → Option Fields
fields_of is_active ObjectTypeId.object = some object_fields
fields_of is_active ObjectTypeId.item = some item_fields
fields_of is_active ObjectTypeId.container = some container_fields
fields_of is_active ObjectTypeId.unit = some unit_fields
fields_of is_active ObjectTypeId.player =
    some (if is_active then player_fields else remote_player_fields)
fields_of is_active ObjectTypeId.game_object = some game_object_fields
fields_of is_active ObjectTypeId.dynamic_object = some dynamic_object_fields
fields_of is_active ObjectTypeId.corpse = some corpse_fields
fields_of is_active ObjectTypeId.num_client_object_types = none

abbrev bytes_of : ℕ → Fields → ℕ
bytes_of size f = (size + data_size f + data_size_saved f) % 2 ^ 32

module _ (class_size : ObjectTypeId → ℕ) where
  -- `SetupObjectStorage`; nothing is done for another id.
  pub setup_object_storage : ObjectTypeId → ℕ → ℕ → Option Layout
  setup_object_storage ObjectTypeId.object guid active =
      some (layout (class_size ObjectTypeId.object) object_fields)
  setup_object_storage ObjectTypeId.item guid active =
      some (layout (class_size ObjectTypeId.item) item_fields)
  setup_object_storage ObjectTypeId.container guid active =
      some (layout (class_size ObjectTypeId.container) container_fields)
  setup_object_storage ObjectTypeId.unit guid active =
      some (layout (class_size ObjectTypeId.unit) unit_fields)
  setup_object_storage ObjectTypeId.player guid active =
      if guid == active
      then some (layout (class_size ObjectTypeId.player) player_fields)
      else some (layout (class_size ObjectTypeId.player) remote_player_fields)
  setup_object_storage ObjectTypeId.game_object guid active =
      some (layout (class_size ObjectTypeId.game_object) game_object_fields)
  setup_object_storage ObjectTypeId.dynamic_object guid active =
      some (layout (class_size ObjectTypeId.dynamic_object) dynamic_object_fields)
  setup_object_storage ObjectTypeId.corpse guid active =
      some (layout (class_size ObjectTypeId.corpse) corpse_fields)
  setup_object_storage ObjectTypeId.num_client_object_types guid active = none

  -- `s_objTotalSize`: the bytes of an object on the heap of its id; players there are other players.
  pub obj_total_size : ObjectTypeId → Option ℕ
  obj_total_size ObjectTypeId.object =
      some (bytes_of (class_size ObjectTypeId.object) object_fields)
  obj_total_size ObjectTypeId.item = some (bytes_of (class_size ObjectTypeId.item) item_fields)
  obj_total_size ObjectTypeId.container =
      some (bytes_of (class_size ObjectTypeId.container) container_fields)
  obj_total_size ObjectTypeId.unit = some (bytes_of (class_size ObjectTypeId.unit) unit_fields)
  obj_total_size ObjectTypeId.player =
      some (bytes_of (class_size ObjectTypeId.player) remote_player_fields)
  obj_total_size ObjectTypeId.game_object =
      some (bytes_of (class_size ObjectTypeId.game_object) game_object_fields)
  obj_total_size ObjectTypeId.dynamic_object =
      some (bytes_of (class_size ObjectTypeId.dynamic_object) dynamic_object_fields)
  obj_total_size ObjectTypeId.corpse =
      some (bytes_of (class_size ObjectTypeId.corpse) corpse_fields)
  obj_total_size ObjectTypeId.num_client_object_types = none

  -- `s_objHeapId` for the objects of an id, by their size: ClntObjMgrInitializeShared adds a heap for
  -- each id from ID_ITEM on, so there is none for ID_OBJECT.
  abbrev heap_of : ObjectTypeId → Option ℕ
  heap_of ObjectTypeId.object = none
  heap_of id = obj_total_size id

  -- How many bytes ClntObjMgrAllocObject allocates; none where there is no heap for the id.
  pub allocated_size : ObjectTypeId → ℕ → ℕ → Option ℕ
  allocated_size id guid active =
      if guid == active
      then some
          (class_size ObjectTypeId.player + data_size player_fields + data_size_saved player_fields)
      else heap_of id
