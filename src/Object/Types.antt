-- ===== src/Object/Types.antt =====
-- src/object/Types.hpp: the types of objects, and src/object/client/CGObject_C.cpp, SetTypeID.
use whoa.Base.{ℕ}

-- `OBJECT_TYPE_ID`; the last is not the id of a type.
pub data ObjectTypeId : Type 0 where
  object : ObjectTypeId
  item : ObjectTypeId
  container : ObjectTypeId
  unit : ObjectTypeId
  player : ObjectTypeId
  game_object : ObjectTypeId
  dynamic_object : ObjectTypeId
  corpse : ObjectTypeId
  num_client_object_types : ObjectTypeId

-- The `HIER_TYPE` that SetTypeID writes for an id, and what it leaves for another.
abbrev pub hier_type : ObjectTypeId → ℕ → ℕ
hier_type object kept = 0x1
hier_type item kept = 0x3
hier_type container kept = 0x7
hier_type unit kept = 0x9
hier_type player kept = 0x19
hier_type game_object kept = 0x21
hier_type dynamic_object kept = 0x41
hier_type corpse kept = 0x81
hier_type num_client_object_types kept = kept
