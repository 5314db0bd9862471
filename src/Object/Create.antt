-- ===== src/Object/Create.antt =====
-- src/object/client/CClientObjCreate.cpp: what a message says of an object that is made, read or skipped.
pub mod Skip
use whoa.Base.{ℕ, ◌+◌, if◌then◌else◌, Bool, leb}
use whoa.Object.DataStore.{DataStore, pure, ◌>>=◌, ◌>>◌}
use whoa.Object.Guid.{get_guid}
use whoa.Object.Movement.{Vector, MovementStatus, has, get_vector}
use whoa.Object.Spline.{MoveUpdate, get_move_update, skip_move_update}

pub record ObjCreate : Type 0 where
  pub move : MoveUpdate
  pub flags : ℕ
  pub uint2ac : ℕ
  pub uint2b0 : ℕ
  pub guid2b8 : ℕ
  pub uint2c0 : ℕ
  pub uint2c4 : ℕ
  pub float2c8 : ℕ
  pub uint2d4 : ℕ

abbrev with_status : MoveUpdate → MovementStatus → MoveUpdate
with_status move status = record move { status = status }

module _ (d : DataStore) where
  -- The branch 0x100, of an object on a transport.
  get_transported : MoveUpdate → d.Store → MoveUpdate × d.Store
  get_transported move = do
    guid ← get_guid d
    position28 ← get_vector d
    position18 ← get_vector d
    facing34 ← d.get 4
    facing24 ← d.get 4
    pure (
        with_status move (record move.status {
          transport = guid;
          position28 = position28;
          position18 = position18;
          facing34 = facing34;
          facing24 = facing24;
        }))

  -- The branch 0x40, of an object that has a place only.
  get_placed : MoveUpdate → d.Store → MoveUpdate × d.Store
  get_placed move = do
    position28 ← get_vector d
    facing34 ← d.get 4
    pure (
        with_status move (record move.status {
          transport = 0;
          position28 = position28;
          position18 = position28;
          facing34 = facing34;
        }))

  pub get_create_move : ℕ → ℕ → MoveUpdate → d.Store → MoveUpdate × d.Store
  get_create_move now flags move =
      if has flags 0x20
      then get_move_update d now move
      else if has flags 0x100
      then get_transported move
      else if has flags 0x40
      then get_placed move
      else pure move

  -- `CClientObjCreate::Get`, up to its result.
  pub get_create_fields : ℕ → ObjCreate → d.Store → ObjCreate × d.Store
  get_create_fields now init = do
    flags ← d.get 2
    move ← get_create_move now flags init.move
    uint2ac ← if has flags 0x8 then d.get 4 else pure 0
    uint2b0 ← if has flags 0x10 then d.get 4 else pure 0
    guid2b8 ← if has flags 0x4 then get_guid d else pure 0
    uint2c0 ← if has flags 0x2 then d.get 4 else pure init.uint2c0
    uint2c4 ← if has flags 0x80 then d.get 4 else pure init.uint2c4
    float2c8 ← if has flags 0x80 then d.get 4 else pure init.float2c8
    uint2d4 ← if has flags 0x200 then d.get 8 else pure 0
    pure (record {
      move = move;
      flags = flags;
      uint2ac = uint2ac;
      uint2b0 = uint2b0;
      guid2b8 = guid2b8;
      uint2c0 = uint2c0;
      uint2c4 = uint2c4;
      float2c8 = float2c8;
      uint2d4 = uint2d4;
    })

  -- `CClientObjCreate::Get`
  pub get_create : ℕ → ObjCreate → d.Store → (ObjCreate × Bool) × d.Store
  get_create now init s =
      let (create, s') = get_create_fields now init s in ((create, leb (d.tell s') (d.size s')), s')

  pub skip_create_move : ℕ → d.Store → Unit {0} × d.Store
  skip_create_move flags =
      if has flags 0x20
      then skip_move_update d
      else if has flags 0x100
      then (do get_guid d; get_vector d; get_vector d; d.get 4; d.get 4; pure tt)
      else if has flags 0x40
      then (do get_vector d; d.get 4; pure tt)
      else pure tt

  -- `CClientObjCreate::Skip`
  pub skip_create : d.Store → Unit {0} × d.Store
  skip_create = do
    flags ← d.get 2
    skip_create_move flags
    if has flags 0x8 then d.get 4 else pure 0
    if has flags 0x10 then d.get 4 else pure 0
    if has flags 0x4 then get_guid d else pure 0
    if has flags 0x2 then d.get 4 else pure 0
    if has flags 0x80 then (do d.get 4; d.get 4) else pure 0
    if has flags 0x200 then d.get 8 else pure 0
    pure tt
