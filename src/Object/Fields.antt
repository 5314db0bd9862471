-- ===== src/Object/Fields.antt =====
-- CGObject.cpp, CGItem.cpp and so on in src/object/client: how many fields (of 4 bytes) the storage of
-- each kind of object has, and where those of its own class start.
use whoa.Base.{ℕ, ◌+◌, ◌*◌, ◌%◌, ◌^◌}

pub record Fields : Type 0 where
  pub base_offset : ℕ
  pub base_offset_saved : ℕ
  pub total_fields : ℕ
  pub total_fields_saved : ℕ

-- The fields of a class behind those of the class it extends.
abbrev extend : Fields → ℕ → ℕ → Fields
extend base own own_saved = record {
  base_offset = base.total_fields;
  base_offset_saved = base.total_fields_saved;
  total_fields = base.total_fields + own;
  total_fields_saved = base.total_fields_saved + own_saved;
}

-- `GetDataSize` and `GetDataSizeSaved` of every class.
abbrev pub data_size : Fields → ℕ
data_size f = f.total_fields * 4 % 2 ^ 32

abbrev pub data_size_saved : Fields → ℕ
data_size_saved f = f.total_fields_saved * 4 % 2 ^ 32

abbrev pub object_fields : Fields
object_fields = record {
  base_offset = 0;
  base_offset_saved = 0;
  total_fields = 6;
  total_fields_saved = 3;
}

abbrev pub item_fields : Fields
item_fields = extend object_fields 58 47

abbrev pub container_fields : Fields
container_fields = extend item_fields 74 72

abbrev pub unit_fields : Fields
unit_fields = extend object_fields 142 123

abbrev pub player_fields : Fields
player_fields = extend unit_fields 1178 1043

-- `TotalRemoteFields` and `TotalRemoteFieldsSaved`: another player's.
abbrev pub remote_player_fields : Fields
remote_player_fields = extend unit_fields 176 173

abbrev pub game_object_fields : Fields
game_object_fields = extend object_fields 12 4

abbrev pub dynamic_object_fields : Fields
dynamic_object_fields = extend object_fields 6 0

abbrev pub corpse_fields : Fields
corpse_fields = extend object_fields 30 3
