-- ===== src/Object/Movement/Skip.antt =====
-- Reading the status of a movement and skipping it leave a message at the same place.
use whoa.Base.{ℕ, ◌+◌, ◌≡◌, refl, ◌∙◌, arith, [], ◌∷◌, if◌then◌else◌, Bool, true, false}
use whoa.Object.DataStore.{DataStore, DataStoreLaws, pure}
use whoa.Object.DataStore.Reads.{Reads, Reads-get, Reads-data, Reads-then}
use whoa.Object.DataStore.Places.{Reads-if, Reads-gets, Reads-IsPlaced, Reads-same, IsPlaced}
use whoa.Object.Movement.{
  MovementStatus, has, has_float38, get_vector, get_movement_status, skip_movement_status, get_fall,
  get_float50, get_float38, get_status_head,
}

-- The bytes of a status without a transport, behind its first fields.
abbrev pub tail_bytes : ℕ → ℕ → ℕ
tail_bytes move_flags uint14 =
    (if has_float38 move_flags uint14 then 4 else 0)
    + 4
    + (if has move_flags 0x1000 then 16 else 0)
    + (if has move_flags 0x4000000 then 4 else 0)

module _ (d : DataStore) (laws : DataStoreLaws d) where
  pub Reads-get_vector : (s : d.Store) → IsPlaced d laws s → Reads d laws 12 s (get_vector d s).1
  unfolding get_vector
  Reads-get_vector s h = Reads-gets d laws (4 ∷ 4 ∷ 4 ∷ []) s h

  head_lem :
      (move : MovementStatus) (s : d.Store)
      → IsPlaced d laws s
      → Reads d laws 26 s (get_status_head d move s).1
        × ((get_status_head d move s).0.move_flags ≡ (d.get 4 s).0)
        × ((get_status_head d move s).0.uint14 ≡ (d.get 2 (d.get 4 s).1).0)
  unfolding get_status_head get_vector
  head_lem move s h = (Reads-gets d laws (4 ∷ 2 ∷ 4 ∷ 4 ∷ 4 ∷ 4 ∷ 4 ∷ []) s h, refl, refl)

  Reads-get_float38 :
      (move : MovementStatus) (s : d.Store)
      → IsPlaced d laws s
      → Reads d laws
          ((if has_float38 move.move_flags move.uint14 then 4 else 0) + 4)
          s
          (get_float38 d move s).1
  unfolding get_float38
  Reads-get_float38 move s h =
      let b = has_float38 move.move_flags move.uint14 in
      let r = Reads-if d laws b (d.get 4) 0 4 s h (Reads-get d laws 4 s) in
      Reads-then d laws (if b then 4 else 0) 4 s _ _ r (Reads-get d laws 4 _)

  Reads-get_fall :
      (move : MovementStatus) (s : d.Store)
      → IsPlaced d laws s
      → Reads d laws 16 s (get_fall d move s).1
  unfolding get_fall
  Reads-get_fall move s h = Reads-gets d laws (4 ∷ 4 ∷ 4 ∷ 4 ∷ []) s h

  Reads-get_float50 :
      (move : MovementStatus) (s : d.Store) → Reads d laws 4 s (get_float50 d move s).1
  unfolding get_float50
  Reads-get_float50 move s = Reads-get d laws 4 s

  kept_if :
      (b : Bool) (p : d.Store → MovementStatus × d.Store) (a : MovementStatus) (s : d.Store)
      → (p s).0.move_flags ≡ a.move_flags
      → ((if b then p else pure a) s).0.move_flags ≡ a.move_flags
  kept_if true p a s e = e
  kept_if false p a s e = refl

  kept_float50 :
      (a : MovementStatus) (s : d.Store) → (get_float50 d a s).0.move_flags ≡ a.move_flags
  unfolding get_float50
  kept_float50 a s = refl

  kept_fall : (a : MovementStatus) (s : d.Store) → (get_fall d a s).0.move_flags ≡ a.move_flags
  unfolding get_fall
  kept_fall a s = refl

  kept_float38 :
      (a : MovementStatus) (s : d.Store) → (get_float38 d a s).0.move_flags ≡ a.move_flags
  unfolding get_float38
  kept_float38 a s = refl

  -- The bytes of a status, told by its first two fields.
  pub Reads-get_movement_status :
      (move : MovementStatus) (s : d.Store)
      → IsPlaced d laws s
      → Reads d laws
          (26 + tail_bytes (d.get 4 s).0 (d.get 2 (d.get 4 s).1).0)
          s
          (get_movement_status d move s).1
        × ((get_movement_status d move s).0.move_flags ≡ (d.get 4 s).0)
  unfolding get_movement_status
  Reads-get_movement_status move s h =
      let f = (d.get 4 s).0 in
      let (head, flags, more) = head_lem move s h in
      let h1 = Reads-IsPlaced d laws 26 s _ head in
      let read = get_float38 d (get_status_head d move s).0 (get_status_head d move s).1 in
      let lift = Reads-get_float38 (get_status_head d move s).0 (get_status_head d move s).1 h1 in
      let r2 = Reads-then d laws 26 _ s _ read.1 head lift in
      let h2 = Reads-IsPlaced d laws _ s read.1 r2 in
      let b3 = has (get_status_head d move s).0.move_flags 0x1000 in
      let b4 = has (get_status_head d move s).0.move_flags 0x4000000 in
      let r3 =
        Reads-if d laws b3 (get_fall d read.0) read.0 16 read.1 h2
          (Reads-get_fall read.0 read.1 h2) in
      let fallen = (if b3 then get_fall d read.0 else pure read.0) read.1 in
      let h3 = Reads-IsPlaced d laws _ read.1 fallen.1 r3 in
      let r4 =
        Reads-if d laws b4 (get_float50 d fallen.0) fallen.0 4 fallen.1 h3
          (Reads-get_float50 fallen.0 fallen.1) in
      let all = Reads-then d laws _ _ s _ _ (Reads-then d laws _ _ s read.1 fallen.1 r2 r3) r4 in
      (
        Reads-same d laws _ _ s _ (rw (flags, more) (omega arith)) all,
        kept_if b4 (get_float50 d fallen.0) fallen.0 fallen.1 (kept_float50 fallen.0 fallen.1)
            ∙ kept_if b3 (get_fall d read.0) read.0 read.1 (kept_fall read.0 read.1)
            ∙ kept_float38 (get_status_head d move s).0 (get_status_head d move s).1
            ∙ flags,
      )

  -- Skipping a status without a transport.
  pub Reads-skip_movement_status :
      (s : d.Store)
      → has (d.get 4 s).0 0x200 ≡ false
      → Reads d laws
          (26 + tail_bytes (d.get 4 s).0 (d.get 2 (d.get 4 s).1).0)
          s
          (skip_movement_status d s).1
  unfolding skip_movement_status
  Reads-skip_movement_status s alone =
      let s1 = (d.get 2 (d.get 4 s).1).1 in
      let r1 = Reads-then d laws 4 2 s _ s1 (Reads-get d laws 4 s) (Reads-get d laws 2 _) in
      let r2 =
        Reads-then d laws 6 20 s s1 (d.get_data_in_situ 20 s1) r1 (Reads-data d laws 20 s1) in
      rw alone (
        Reads-same d laws _ _ s _ (omega arith) (
          Reads-then d laws 26 _ s (d.get_data_in_situ 20 s1) _ r2
            (Reads-data d laws _ (d.get_data_in_situ 20 s1))))

  pub flags-skip_movement_status : (s : d.Store) → (skip_movement_status d s).0 ≡ (d.get 4 s).0
  unfolding skip_movement_status
  flags-skip_movement_status s = refl
