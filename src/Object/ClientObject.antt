-- ===== src/Object/ClientObject.antt =====
-- src/object/client/CGObject_C.cpp and CGObject.cpp: an object, its storage and its flags.
use whoa.Base.{
  ℕ, ◌+◌, ◌*◌, ◌^◌, ◌-◌, ◌==◌, if◌then◌else◌, Bool, true, false, not, List, Option, none, some,
  get_or, set, length, ltb,
}
use whoa.Object.Types.{ObjectTypeId, hier_type}

pub record ClientObject : Type 0 where
  -- The key of the hash table the object is in
  pub key : ℕ
  -- `m_obj`, as the array of fields that it is
  pub storage : List ℕ
  pub type_id : ObjectTypeId
  pub disable_time_ms : ℕ
  pub lock_count : ℕ
  pub disabled : Bool
  pub in_reenable : Bool
  pub post_inited : Bool
  pub disable_pending : Bool

-- `GetGUID`: the first two fields.
abbrev pub get_object_guid : ClientObject → ℕ
get_object_guid o = get_or o.storage 0 0 + get_or o.storage 1 0 * 2 ^ 32

-- `GetType`: the third field.
abbrev pub get_type : ClientObject → ℕ
get_type o = get_or o.storage 2 0

abbrev pub with_storage : ClientObject → List ℕ → ClientObject
with_storage o fields = record o { storage = fields }

-- `SetBlock`; none when the storage does not have the field.
abbrev pub set_block : ClientObject → ℕ → ℕ → Option ClientObject
set_block o block value =
    if ltb block (length o.storage) then some (with_storage o (set o.storage block value)) else none

abbrev pub set_type_id : ObjectTypeId → ClientObject → ClientObject
set_type_id id o = record o { type_id = id; storage = set o.storage 2 (hier_type id (get_type o)) }

abbrev pub is_object_locked : ClientObject → Bool
is_object_locked o = not (o.lock_count == 0)

-- A count of 16 digits that stays at its ends.
abbrev pub set_object_locked : Bool → ClientObject → ClientObject
set_object_locked locked o =
    if locked
    then if o.lock_count == 0xFFFF then o else record o { lock_count = o.lock_count + 1 }
    else if o.lock_count == 0
    then o
    else record o { lock_count = o.lock_count - 1 }

abbrev pub set_disable_pending : Bool → ClientObject → ClientObject
set_disable_pending pending o = record o { disable_pending = pending }

-- `Disable`, at a time of the world's clock.
abbrev pub disable : ℕ → ClientObject → ClientObject
disable now o = record o { disabled = true; disable_time_ms = now }

abbrev pub reenable : ClientObject → ClientObject
reenable o = record o { disabled = false; in_reenable = true }

abbrev pub post_reenable : ClientObject → ClientObject
post_reenable o = record o { in_reenable = false }
