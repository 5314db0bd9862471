-- ===== src/Object/Movement.antt =====
-- src/object/movement/CMovementStatus.cpp: reading the status of a movement from a message, and
-- skipping it. Floats are read as their 32 digits.
pub mod Skip
use whoa.Base.{ℕ, ◌+◌, ◌-◌, ◌*◌, ◌%◌, ◌^◌, ◌==◌, ◌||◌, bit_and, bit_or, if◌then◌else◌, Bool, not}
use whoa.Object.DataStore.{DataStore, pure, ◌>>=◌, ◌>>◌}
use whoa.Object.Guid.{get_guid}

-- `flags & mask`, as a test
abbrev pub has : ℕ → ℕ → Bool
has flags mask = not (bit_and flags mask == 0)

pub record Vector : Type 0 where
  pub x : ℕ
  pub y : ℕ
  pub z : ℕ

pub record MovementStatus : Type 0 where
  pub uint0 : ℕ
  pub transport : ℕ
  pub move_flags : ℕ
  pub uint14 : ℕ
  pub position18 : Vector
  pub facing24 : ℕ
  pub position28 : Vector
  pub facing34 : ℕ
  pub float38 : ℕ
  pub uint3c : ℕ
  pub float40 : ℕ
  pub float44 : ℕ
  pub float48 : ℕ
  pub float4c : ℕ
  pub float50 : ℕ

-- The condition for `float38`.
abbrev pub has_float38 : ℕ → ℕ → Bool
has_float38 move_flags uint14 = has move_flags (bit_or 0x200000 0x2000000) || has uint14 0x20

module _ (d : DataStore) where
  -- A call that only moves the place.
  abbrev pub step : (d.Store → d.Store) → d.Store → Unit {0} × d.Store
  step f s = (tt, f s)

  -- `operator>>(CDataStore&, C3Vector&)`
  pub get_vector : d.Store → Vector × d.Store
  get_vector = do x ← d.get 4; y ← d.get 4; z ← d.get 4; pure (record { x = x; y = y; z = z })

  -- The four floats behind 0x1000.
  get_fall : MovementStatus → d.Store → MovementStatus × d.Store
  get_fall move = do
    float40 ← d.get 4
    float44 ← d.get 4
    float48 ← d.get 4
    float4c ← d.get 4
    pure
        (record move { float40 = float40; float44 = float44; float48 = float48; float4c = float4c })

  get_float50 : MovementStatus → d.Store → MovementStatus × d.Store
  get_float50 move = do float50 ← d.get 4; pure (record move { float50 = float50 })

  -- What every status has.
  get_status_head : MovementStatus → d.Store → MovementStatus × d.Store
  get_status_head move = do
    move_flags ← d.get 4
    uint14 ← d.get 2
    uint0 ← d.get 4
    position28 ← get_vector
    facing34 ← d.get 4
    pure (record move {
      move_flags = move_flags;
      uint14 = uint14;
      uint0 = uint0;
      position28 = position28;
      facing34 = facing34;
      transport = if has move_flags 0x200 then move.transport else 0;
    })

  get_float38 : MovementStatus → d.Store → MovementStatus × d.Store
  get_float38 move = do
    float38 ← if has_float38 move.move_flags move.uint14 then d.get 4 else pure 0
    uint3c ← d.get 4
    pure (record move { float38 = float38; uint3c = uint3c })

  -- `operator>>(CDataStore&, CMovementStatus&)`. What a transport adds is not read.
  pub get_movement_status : MovementStatus → d.Store → MovementStatus × d.Store
  get_movement_status move = do
    head ← get_status_head move
    lifted ← get_float38 head
    fallen ← if has head.move_flags 0x1000 then get_fall lifted else pure lifted
    if has head.move_flags 0x4000000 then get_float50 fallen else pure fallen

  -- `CMovementStatus::Skip`
  pub skip_movement_status : d.Store → ℕ × d.Store
  skip_movement_status = do
    move_flags ← d.get 4
    uint14 ← d.get 2
    step (d.get_data_in_situ 20)
    transport_bytes ←
        if has move_flags 0x200
        then (do get_guid d; pure (if has uint14 0x400 then 25 else 21))
        else pure 0
    step (
        d.get_data_in_situ (
          transport_bytes
          + (if has_float38 move_flags uint14 then 4 else 0)
          + 4
          + (if has move_flags 0x1000 then 16 else 0)
          + (if has move_flags 0x4000000 then 4 else 0)))
    pure move_flags
