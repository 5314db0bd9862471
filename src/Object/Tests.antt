-- ===== src/Object/Tests.antt =====
-- A message in memory, on which the readers of Object run.
use whoa.Base.{
  inl, some, false, ap, ◌*◌, ℕ, ◌+◌, ◌≡◌, ◌≤◌, refl, arith, List, [], ◌∷◌, length, take, drop, leb,
  if◌then◌else◌, Bool-cases, inl, inr,
}
use whoa.Object.DataStore.{DataStore, DataStoreLaws, read_to, little_endian}
use whoa.Object.Guid.{get_guid}
use whoa.Object.Guid.Packed.{get_guid-packed}
use whoa.Object.Movement.{Vector, MovementStatus}
use whoa.Object.Spline.{Face, MoveSpline, MoveUpdate}
use whoa.Object.Create.{ObjCreate}
use whoa.Object.Storage.Fits.{setup_object_storage-fits}
use whoa.Object.Types.{ObjectTypeId, hier_type}
use whoa.Object.Fields.{Fields}
use whoa.Object.Mirror.{get_num_dword_blocks}
use whoa.Object.Storage.{Layout, fields_of, setup_object_storage, allocated_size}

abbrev pub Memory : Type 0
Memory = List ℕ × ℕ

abbrev pub place_after : ℕ → Memory → Memory
place_after n s = (s.0, read_to (length s.0) s.1 n)

abbrev pub memory : DataStore
memory = record {
  Store = Memory;
  get = λ n s. (
    if leb (s.1 + n) (length s.0) then little_endian (take n (drop s.1 s.0)) else 0,
    place_after n s,
  );
  get_data_in_situ = place_after;
  tell = λ s. s.1;
  size = λ s. length s.0;
  seek = λ p s. (s.0, p);
}

pub get_inside :
    (n : ℕ) (s : Memory)
    → s.1 + n ≤ length s.0
    → (memory.get n s).0 ≡ little_endian (take n (drop s.1 s.0))
get_inside n s h = elim (Bool-cases (leb (s.1 + n) (length s.0))) [
  | inl inside ↦ rw inside refl
  | inr outside ↦ absurd (ground (arith, h, outside))
]

abbrev pub memory_laws : DataStoreLaws memory
memory_laws = record {
  content = λ s. s.0;
  size_content = λ s. refl;
  content-get = λ n s. refl;
  content-data = λ n s. refl;
  content-seek = λ p s. refl;
  tell-get = λ n s. refl;
  tell-data = λ n s. refl;
  tell-seek = λ p s. refl;
  get_value = get_inside;
}

abbrev nowhere : Vector
nowhere = record { x = 0; y = 0; z = 0 }

abbrev at_rest : MovementStatus
at_rest = record {
  uint0 = 0;
  transport = 0;
  move_flags = 0;
  uint14 = 0;
  position18 = nowhere;
  facing24 = 0;
  position28 = nowhere;
  facing34 = 0;
  float38 = 0;
  uint3c = 0;
  float40 = 0;
  float44 = 0;
  float48 = 0;
  float4c = 0;
  float50 = 0;
}

abbrev no_spline : MoveSpline
no_spline = record {
  face = Face.guid 0;
  flags = 0;
  start = 0;
  uint2c = 0;
  uint30 = 0;
  vector1f8 = nowhere;
  float204 = 0;
  float208 = 0;
  float20c = 0;
  uint210 = 0;
}

abbrev no_move : MoveUpdate
no_move = record {
  status = at_rest;
  float60 = 0;
  float64 = 0;
  float68 = 0;
  float6c = 0;
  float70 = 0;
  float74 = 0;
  float78 = 0;
  float7c = 0;
  float80 = 0;
  spline = no_spline;
}

abbrev no_create : ObjCreate
no_create = record {
  move = no_move;
  flags = 0;
  uint2ac = 0;
  uint2b0 = 0;
  guid2b8 = 0;
  uint2c0 = 0;
  uint2c4 = 0;
  float2c8 = 0;
  uint2d4 = 0;
}

-- The bytes of a GUID, two of them not zero, and its packed form with a byte behind it.
abbrev guid_parts : List ℕ
guid_parts = (5 ∷ 0 ∷ 7 ∷ 0 ∷ 0 ∷ 0 ∷ 0 ∷ 0 ∷ [])

abbrev packed_guid : Memory
packed_guid = ((5 ∷ 5 ∷ 7 ∷ 9 ∷ []), 0)

get_guid-packed_example :
    ((get_guid memory packed_guid).0 ≡ 458757)
    × (drop (get_guid memory packed_guid).1.1 (get_guid memory packed_guid).1.0 ≡ (9 ∷ []))
    × ((get_guid memory packed_guid).1.1 ≡ 3)
get_guid-packed_example =
    get_guid-packed memory memory_laws guid_parts (9 ∷ []) packed_guid
      (
        omega arith,
        (
          omega arith,
          (
            omega arith,
            (omega arith, (omega arith, (omega arith, (omega arith, (omega arith, tt))))),
          ),
        ),
      )
      refl (omega arith) refl

-- An object with a place (0x40) and one number (0x8).
abbrev made_at_place : Memory
made_at_place = (
  (0x48 ∷ 0 ∷ 1 ∷ 0 ∷ 0 ∷ 0 ∷ 2 ∷ 0 ∷ 0 ∷ 0 ∷ 3 ∷ 0 ∷ 0 ∷ 0 ∷ 4 ∷ 0 ∷ 0 ∷ 0 ∷ 5 ∷ 0 ∷ 0 ∷ 0 ∷ 77
      ∷ []),
  0,
)

-- Classes of one size.
abbrev class_bytes : ObjectTypeId → ℕ
class_bytes id = 400

setup_object_storage-fits_example :
    (f : Fields) × (l : Layout) × (n : ℕ) × (fields_of false ObjectTypeId.player ≡ some f)
    × (setup_object_storage class_bytes ObjectTypeId.player 5 6 ≡ some l)
    × (allocated_size class_bytes ObjectTypeId.player 5 6 ≡ some n)
    × (l.storage + get_num_dword_blocks 6 (hier_type ObjectTypeId.player 0) 5 * 4 ≡ l.saved)
    × (l.storage + l.zeroed ≡ l.saved)
    × (l.saved + f.total_fields_saved * 4 ≤ n)
setup_object_storage-fits_example =
    setup_object_storage-fits class_bytes ObjectTypeId.player 5 6
      (λ e. omega (arith, ap (λ id. hier_type id 0) e))
      (inl (λ e. omega (arith, ap (λ id. hier_type id 0) e))) (omega arith) (omega arith)
