-- ===== src/Object/Spline/Skip.antt =====
-- Reading a movement and skipping it leave a message at the same place.
use whoa.Base.{
  ℕ, ◌+◌, ◌*◌, ◌≡◌, refl, ap, ◌∙◌, sym, arith, [], ◌∷◌, if◌then◌else◌, Bool, true, false,
  Bool-cases, inl, inr,
}
use whoa.Object.DataStore.{DataStore, DataStoreLaws, pure}
use whoa.Object.DataStore.Reads.{Reads, Reads-get, Reads-data, Reads-then, Same, Same-Reads}
use whoa.Object.DataStore.Places.{
  Reads-gets, Reads-IsPlaced, Reads-same, Reads-none, IsPlaced, Same-read, Same-refl,
}
use whoa.Object.Movement.{has, get_movement_status, skip_movement_status}
use whoa.Object.Movement.Skip.{
  Reads-get_vector, Reads-get_movement_status, Reads-skip_movement_status,
  flags-skip_movement_status,
}
use whoa.Object.Spline.{
  Face, MoveSpline, MoveUpdate, face_bytes, get_face, get_spline_points, get_spline_fields,
  get_move_spline, skip_move_spline, get_speeds, get_move_update, skip_move_update,
}

module _ (d : DataStore) (laws : DataStoreLaws d) where
  Reads-get_face :
      (flags : ℕ) (face : Face) (s : d.Store)
      → IsPlaced d laws s
      → Reads d laws (face_bytes flags) s (get_face d flags face s).1
  unfolding get_face
  Reads-get_face flags face s h = elim (Bool-cases (has flags 0x20000)) [
    | inl four ↦ rw four (Reads-get d laws 4 s)
    | inr other ↦ elim (Bool-cases (has flags 0x10000)) [
      | inl eight ↦ rw (other, eight) (Reads-get d laws 8 s)
      | inr another ↦ elim (Bool-cases (has flags 0x8000)) [
        | inl twelve ↦ rw (other, another, twelve) (Reads-get_vector d laws s h)
        | inr nothing ↦ rw (other, another, nothing) (Reads-none d laws s h)
      ]
    ]
  ]

  -- The store behind the seven numbers that stand before the points.
  abbrev numbers : d.Store → d.Store
  numbers s = (d.get 4 (d.get 4 (d.get 4 (d.get 4 (d.get 4 (d.get 4 (d.get 4 s).1).1).1).1).1).1).1

  Reads-get_spline_fields :
      (now flags : ℕ) (face : Face) (s : d.Store)
      → IsPlaced d laws s
      → Reads d laws
          (4 + (12 * (d.get 4 (numbers s)).0 + 13))
          (numbers s)
          (get_spline_fields d now flags face s).1
  unfolding get_spline_fields get_spline_points
  Reads-get_spline_fields now flags face s h =
      let p = numbers s in
      let n = (d.get 4 p).0 in
      let q = d.get_data_in_situ (12 * n) (d.get 4 p).1 in
      let points =
        Reads-then d laws 4 (12 * n) p (d.get 4 p).1 q (Reads-get d laws 4 p)
          (Reads-data d laws (12 * n) (d.get 4 p).1) in
      let mode = Reads-then d laws 1 12 q (d.get 1 q).1 _ (Reads-get d laws 1 q) (
        Reads-get_vector d laws (d.get 1 q).1
          (Reads-IsPlaced d laws 1 q (d.get 1 q).1 (Reads-get d laws 1 q))) in
      Reads-same d laws _ _ p _ (omega arith) (Reads-then d laws _ 13 p q _ points mode)

  Reads-numbers : (s : d.Store) → IsPlaced d laws s → Reads d laws 28 s (numbers s)
  Reads-numbers s h = Reads-gets d laws (4 ∷ 4 ∷ 4 ∷ 4 ∷ 4 ∷ 4 ∷ 4 ∷ []) s h

  -- The points, read or skipped from the same place.
  points_lem :
      (s t s' : d.Store)
      → Same d laws s t
      → Reads d laws (4 + (12 * (d.get 4 s).0 + 13)) s s'
      → Same d laws s' (d.get_data_in_situ ((d.get 4 t).0 * 12 + 13) (d.get 4 t).1)
  points_lem s t s' e r =
      let n = (d.get 4 t).0 in
      let r' =
        Reads-then d laws 4 (n * 12 + 13) t (d.get 4 t).1
          (d.get_data_in_situ (n * 12 + 13) (d.get 4 t).1) (Reads-get d laws 4 t)
          (Reads-data d laws (n * 12 + 13) (d.get 4 t).1) in
      Same-read d laws 4 _ _ s t s' _ e r r'
        (λ v. Same-Reads d laws _ s t s' _ e r (Reads-same d laws _ _ t _ (omega (arith, v)) r'))

  -- The bytes of a movement along points, told by its flags and the number of points.
  abbrev spline_bytes : ℕ → ℕ → ℕ
  spline_bytes flags n = face_bytes flags + 28 + (4 + (12 * n + 13))

  -- Where reading stands before the points, and where skipping does.
  abbrev before_points : ℕ → MoveSpline → d.Store → d.Store
  before_points now spline s = numbers (get_face d (d.get 4 s).0 spline.face (d.get 4 s).1).1

  abbrev skip_before : d.Store → d.Store
  skip_before t = d.get_data_in_situ (face_bytes (d.get 4 t).0 + 28) (d.get 4 t).1

  Reads-before :
      (now : ℕ) (spline : MoveSpline) (s : d.Store)
      → Reads d laws (4 + (face_bytes (d.get 4 s).0 + 28)) s (before_points now spline s)
  Reads-before now spline s =
      let f = (d.get 4 s).0 in
      let s1 = (d.get 4 s).1 in
      let h1 = Reads-IsPlaced d laws 4 s s1 (Reads-get d laws 4 s) in
      let s2 = (get_face d f spline.face s1).1 in
      let face = Reads-get_face f spline.face s1 h1 in
      let nums = Reads-numbers s2 (Reads-IsPlaced d laws _ s1 s2 face) in
      Reads-then d laws 4 _ s s1 (numbers s2) (Reads-get d laws 4 s)
        (Reads-then d laws (face_bytes f) 28 s1 s2 (numbers s2) face nums)

  Reads-skip_before :
      (t : d.Store) → Reads d laws (4 + (face_bytes (d.get 4 t).0 + 28)) t (skip_before t)
  Reads-skip_before t =
      Reads-then d laws 4 _ t (d.get 4 t).1 (skip_before t) (Reads-get d laws 4 t)
        (Reads-data d laws _ (d.get 4 t).1)

  Same-before :
      (now : ℕ) (spline : MoveSpline) (s t : d.Store)
      → Same d laws s t
      → Same d laws (before_points now spline s) (skip_before t)
  Same-before now spline s t e =
      let a = Reads-before now spline s in
      let b = Reads-skip_before t in
      Same-read d laws 4 _ _ s t _ (skip_before t) e a b (λ v.
        Same-Reads d laws _ s t _ (skip_before t) e a
          (Reads-same d laws _ _ t (skip_before t) (rw v refl) b))

  pub Same-move_spline :
      (now : ℕ) (spline : MoveSpline) (s t : d.Store)
      → Same d laws s t
      → Same d laws (get_move_spline d now spline s).1 (skip_move_spline d t).1
  unfolding get_move_spline skip_move_spline
  Same-move_spline now spline s t e =
      let f = (d.get 4 s).0 in
      let face = get_face d f spline.face (d.get 4 s).1 in
      let h1 = Reads-IsPlaced d laws 4 s (d.get 4 s).1 (Reads-get d laws 4 s) in
      let h2 = Reads-IsPlaced d laws _ _ face.1 (Reads-get_face f spline.face (d.get 4 s).1 h1) in
      points_lem (before_points now spline s) (skip_before t) _ (Same-before now spline s t e)
        (Reads-get_spline_fields now f face.0 face.1 h2)

  Reads-get_speeds :
      (move : MoveUpdate) (s : d.Store)
      → IsPlaced d laws s
      → Reads d laws 36 s (get_speeds d move s).1
  unfolding get_speeds
  Reads-get_speeds move s h = Reads-gets d laws (4 ∷ 4 ∷ 4 ∷ 4 ∷ 4 ∷ 4 ∷ 4 ∷ 4 ∷ 4 ∷ []) s h

  Same-if :
      {A B : Type 0} (b c : Bool) (p : d.Store → A × d.Store) (a : A)
      → (q : d.Store → B × d.Store) (a' : B) (s t : d.Store) → b ≡ c
      → Same d laws s t
      → Same d laws (p s).1 (q t).1
      → Same d laws ((if b then p else pure a) s).1 ((if c then q else pure a') t).1
  Same-if true true p a q a' s t e same r = r
  Same-if false false p a q a' s t e same r = same
  Same-if true false p a q a' s t e same r = cc e
  Same-if false true p a q a' s t e same r = cc e

  -- From a place in a message where a movement without a transport starts, reading it and skipping
  -- it end at the same place.
  pub Same-move_update :
      (now : ℕ) (move : MoveUpdate) (s : d.Store)
      → IsPlaced d laws s
      → has (d.get 4 s).0 0x200 ≡ false
      → Same d laws (get_move_update d now move s).1 (skip_move_update d s).1
  unfolding get_move_update skip_move_update
  Same-move_update now move s h alone =
      let (status, flags) = Reads-get_movement_status d laws move.status s h in
      let skipped = Reads-skip_movement_status d laws s alone in
      let s1 = (get_movement_status d move.status s).1 in
      let t1 = (skip_movement_status d s).1 in
      let e1 = Same-Reads d laws _ s s s1 t1 (Same-refl d laws s) status skipped in
      let h1 = Reads-IsPlaced d laws _ s s1 status in
      let read =
        get_speeds d (record move { status = (get_movement_status d move.status s).0 }) s1 in
      let t2 = d.get_data_in_situ 36 t1 in
      let e2 =
        Same-Reads d laws 36 s1 t1 read.1 t2 e1 (Reads-get_speeds _ s1 h1)
          (Reads-data d laws 36 t1) in
      Same-if (has (get_movement_status d move.status s).0.move_flags 0x8000000)
        (has (skip_movement_status d s).0 0x8000000) (get_move_spline d now move.spline) move.spline
        (skip_move_spline d) tt read.1 t2
        (ap (λ f. has f 0x8000000) (flags ∙ sym (flags-skip_movement_status d laws s))) e2
        (Same-move_spline now move.spline read.1 t2 e2)

  pub IsPlaced-get_move_update :
      (now : ℕ) (move : MoveUpdate) (s : d.Store)
      → IsPlaced d laws s
      → IsPlaced d laws (get_move_update d now move s).1
  unfolding get_move_update get_move_spline
  IsPlaced-get_move_update now move s h =
      let status = (Reads-get_movement_status d laws move.status s h).0 in
      let s1 = (get_movement_status d move.status s).1 in
      let f = (get_movement_status d move.status s).0.move_flags in
      let s2 =
        (get_speeds d (record move { status = (get_movement_status d move.status s).0 }) s1).1 in
      let h2 =
        Reads-IsPlaced d laws 36 s1 s2
          (Reads-get_speeds _ s1 (Reads-IsPlaced d laws _ s s1 status)) in
      let face = get_face d (d.get 4 s2).0 move.spline.face (d.get 4 s2).1 in
      let h3 = Reads-IsPlaced d laws _ (d.get 4 s2).1 face.1 (
        Reads-get_face (d.get 4 s2).0 move.spline.face (d.get 4 s2).1
          (Reads-IsPlaced d laws 4 s2 _ (Reads-get d laws 4 s2))) in
      elim (Bool-cases (has f 0x8000000)) [
        | inl along ↦ rw along (
            Reads-IsPlaced d laws _ (numbers face.1) _
              (Reads-get_spline_fields now (d.get 4 s2).0 face.0 face.1 h3))
        | inr still ↦ rw still h2
      ]
