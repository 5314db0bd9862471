-- ===== src/Object/Spline.antt =====
-- src/object/movement/CMoveSpline.cpp, src/util/C3Spline.cpp and
-- src/object/client/CClientMoveUpdate.cpp: a movement along points, and the whole update of a movement. The
-- sizes are products with a `sizeof`, a number of 64 digits, and do not wrap.
pub mod Skip
use whoa.Base.{ℕ, ◌+◌, ◌-◌, ◌*◌, ◌%◌, ◌^◌, if◌then◌else◌, Bool}
use whoa.Object.DataStore.{DataStore, pure, ◌>>=◌, ◌>>◌}
use whoa.Object.Movement.{
  Vector, MovementStatus, has, step, get_vector, get_movement_status, skip_movement_status,
}

-- The union `face`.
pub data Face : Type 0 where
  spot : Vector → Face
  guid : ℕ → Face
  facing : ℕ → Face

pub record MoveSpline : Type 0 where
  pub face : Face
  pub flags : ℕ
  pub start : ℕ
  pub uint2c : ℕ
  pub uint30 : ℕ
  pub vector1f8 : Vector
  pub float204 : ℕ
  pub float208 : ℕ
  pub float20c : ℕ
  pub uint210 : ℕ

pub record MoveUpdate : Type 0 where
  pub status : MovementStatus
  pub float60 : ℕ
  pub float64 : ℕ
  pub float68 : ℕ
  pub float6c : ℕ
  pub float70 : ℕ
  pub float74 : ℕ
  pub float78 : ℕ
  pub float7c : ℕ
  pub float80 : ℕ
  pub spline : MoveSpline

abbrev face_bytes : ℕ → ℕ
face_bytes flags =
    if has flags 0x20000
    then 4
    else if has flags 0x10000
    then 8
    else if has flags 0x8000
    then 12
    else 0

module _ (d : DataStore) where
  get_face : ℕ → Face → d.Store → Face × d.Store
  get_face flags face =
      if has flags 0x20000
      then (do value ← d.get 4; pure (facing value))
      else if has flags 0x10000
      then (do value ← d.get 8; pure (guid value))
      else if has flags 0x8000
      then (do value ← get_vector d; pure (spot value))
      else pure face

  -- `operator>>(CDataStore&, C3Spline_CatmullRom&)`; the points are not kept yet.
  get_spline_points : d.Store → Unit {0} × d.Store
  get_spline_points = do
    point_count ← d.get 4
    step d (d.get_data_in_situ (12 * point_count))
    d.get 1
    pure tt

  -- The fields behind the face.
  get_spline_fields : ℕ → ℕ → Face → d.Store → MoveSpline × d.Store
  get_spline_fields now flags face = do
    val ← d.get 4
    uint2c ← d.get 4
    uint30 ← d.get 4
    float204 ← d.get 4
    float208 ← d.get 4
    float20c ← d.get 4
    uint210 ← d.get 4
    get_spline_points
    vector1f8 ← get_vector d
    pure (record {
      face = face;
      flags = flags;
      start = (now + 2 ^ 32 - val) % 2 ^ 32;
      uint2c = uint2c;
      uint30 = uint30;
      vector1f8 = vector1f8;
      float204 = float204;
      float208 = float208;
      float20c = float20c;
      uint210 = uint210;
    })

  -- `operator>>(CDataStore&, CMoveSpline&)`, at a time of the clock.
  pub get_move_spline : ℕ → MoveSpline → d.Store → MoveSpline × d.Store
  get_move_spline now spline = do
    flags ← d.get 4
    face ← get_face flags spline.face
    get_spline_fields now flags face

  -- `CMoveSpline::Skip`
  pub skip_move_spline : d.Store → Unit {0} × d.Store
  skip_move_spline = do
    flags ← d.get 4
    step d (d.get_data_in_situ (face_bytes flags + 28))
    spline_points ← d.get 4
    step d (d.get_data_in_situ (spline_points * 12 + 13))

  -- The speeds.
  get_speeds : MoveUpdate → d.Store → MoveUpdate × d.Store
  get_speeds move = do
    float60 ← d.get 4
    float64 ← d.get 4
    float68 ← d.get 4
    float6c ← d.get 4
    float70 ← d.get 4
    float74 ← d.get 4
    float78 ← d.get 4
    float7c ← d.get 4
    float80 ← d.get 4
    pure (record move {
      float60 = float60;
      float64 = float64;
      float68 = float68;
      float6c = float6c;
      float70 = float70;
      float74 = float74;
      float78 = float78;
      float7c = float7c;
      float80 = float80;
    })

  -- `operator>>(CDataStore&, CClientMoveUpdate&)`
  pub get_move_update : ℕ → MoveUpdate → d.Store → MoveUpdate × d.Store
  get_move_update now move = do
    status ← get_movement_status d move.status
    read ← get_speeds (record move { status = status })
    spline ←
        if has status.move_flags 0x8000000
        then get_move_spline now move.spline
        else pure move.spline
    pure (record read { spline = spline })

  -- `CClientMoveUpdate::Skip`
  pub skip_move_update : d.Store → Unit {0} × d.Store
  skip_move_update = do
    move_flags ← skip_movement_status d
    step d (d.get_data_in_situ (9 * 4))
    if has move_flags 0x8000000 then skip_move_spline else pure tt
