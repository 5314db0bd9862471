-- ===== src/Object/Storage/New.antt =====
-- The fields of a new object, in CreateObject of src/object/client/MessageHandlers.cpp: its storage is
-- set up and zeroed, its type is written, and the message is filled in.
pub mod Room
use whoa.Base.{ℕ, ◌==◌, Bool, true, false, replicate, Option, none, some}
use whoa.Object.DataStore.{DataStore}
use whoa.Object.Types.{ObjectTypeId}
use whoa.Object.Fields.{Fields}
use whoa.Object.ClientObject.{ClientObject, set_type_id}
use whoa.Object.Mirror.{fill_in_partial_object_data}
use whoa.Object.Storage.{fields_of}

-- The zeroed storage. The rest of the object is set when it is constructed, later.
abbrev pub zeroed_object : ℕ → Fields → ClientObject
zeroed_object guid f = record {
  key = guid;
  storage = replicate f.total_fields 0;
  type_id = ObjectTypeId.object;
  disable_time_ms = 0;
  lock_count = 0;
  disabled = false;
  in_reenable = false;
  post_inited = false;
  disable_pending = false;
}

module _ (d : DataStore) where
  -- `SetupObjectStorage`, `SetTypeID` and `FillInPartialObjectData` of a new object; none where an
  -- access leaves the storage, or there is none.
  pub fill_new_object : ℕ → ObjectTypeId → ℕ → d.Store → Option (Bool × ClientObject × d.Store)
  fill_new_object active id guid s = elim (fields_of (guid == active) id) [
    | none ↦ none
    | some f ↦
        fill_in_partial_object_data d active (set_type_id id (zeroed_object guid f)) guid false s
  ]
