-- ===== src/Object/Update/Went.antt =====
-- UpdateOutOfRangeObjects on the entries of the manager.
use whoa.Base.{
  ℕ, zero, suc, ◌≡◌, ◌==◌, refl, ap, ◌∙◌, sym, arith, not, ◌&&◌, inl, inr, if◌then◌else◌, true,
  false, Bool-cases, Option, some, Option-cases,
}
use mathlib.Core.Option.{some-injective}
use whoa.Object.DataStore.{DataStore}
use whoa.Object.Guid.{get_guid}
use whoa.Object.ClientObject.{is_object_locked}
use whoa.Object.Manager.{Storm, ClntObjMgr, move_to_cleanup}
use whoa.Object.Manager.Tables.{StormLaws}
use whoa.Object.Manager.Status.{IsValid}
use whoa.Object.Manager.Destroy.{pass2_run}
use whoa.Object.Manager.Entry.{Entry, mapped, leaving, left_behind, in_turn, entry}
use whoa.Object.Manager.Entry.Leave.{
  pass1-entry, move_to_cleanup-entry, inactive-entry, locked-entry, leaving_inactive, left_inactive,
}
use whoa.Object.Update.{
  skip_guids, skip_set_of_objects, out_of_range_pass1, out_of_range_pass2, out_of_range_loop1,
  out_of_range_loop2, update_out_of_range_objects,
}
use whoa.Object.Update.InRange.{guids_of}
use whoa.Object.Update.Sleep.{
  Steady-refl, AllListed, AllListed_Steady, Kept, Kept-then, pass1_lem, pass2_lem,
}

-- Where the second pass over a set starts.
abbrev pub again : (d : DataStore) → d.Store → d.Store
again d s = d.seek (d.tell (d.get 4 s).1) (skip_set_of_objects d s)

module _ (storm : Storm) (laws : StormLaws storm) where
  -- A change for a GUID that is not the active player's.
  abbrev pub one_turn : (Entry → Entry) → ℕ → ClntObjMgr storm → ℕ → Option Entry
  one_turn f guid m k =
      if (k == guid) && not (k == m.active_player)
      then mapped f (entry storm laws m k)
      else entry storm laws m k

  player_turn :
      (f : Entry → Entry) (guid k : ℕ) (m : ClntObjMgr storm)
      → (guid == m.active_player) ≡ true
      → entry storm laws m k ≡ one_turn f guid m k
  player_turn f guid k m player =
      let never : ((k == guid) && not (k == m.active_player)) ≡ false = ground (arith, player) in
      rw never refl

  other_turn :
      (f : Entry → Entry) (guid k : ℕ) (m : ClntObjMgr storm) (e : Option Entry)
      → (guid == m.active_player) ≡ false
      → e ≡ (if k == guid then mapped f (entry storm laws m k) else entry storm laws m k)
      → e ≡ one_turn f guid m k
  other_turn f guid k m e other same =
      let here : ((k == guid) && not (k == m.active_player)) ≡ (k == guid) =
        ground (arith, other) in
      rw here same

  leaving_lem :
      (now guid k : ℕ) (m : ClntObjMgr storm)
      → IsValid storm laws m
      → entry storm laws (out_of_range_pass1 storm now guid m) k ≡ one_turn (leaving now) guid m k
  unfolding out_of_range_pass1
  leaving_lem now guid k m valid = elim (Bool-cases (guid == m.active_player)) [
    | inl player ↦ rw (out_of_range_pass1, player) (player_turn (leaving now) guid k m player)
    | inr other ↦ elim (Option-cases (storm.ptr guid m.objects)) [
      | inl e ↦
          rw (out_of_range_pass1, other, e)
            (other_turn (leaving now) guid k m _ other (
              inactive-entry storm laws guid k (leaving now) m (leaving_inactive storm laws now) e))
      | inr (a, e) ↦
          rw (out_of_range_pass1, other, e)
            (other_turn (leaving now) guid k m _ other
              (pass1-entry storm laws now guid a k m valid e))
    ]
  ]

  left_lem :
      (guid k : ℕ) (m m' : ClntObjMgr storm)
      → IsValid storm laws m
      → AllListed storm laws m.heap
      → out_of_range_pass2 storm guid m ≡ some m'
      → entry storm laws m' k ≡ one_turn left_behind guid m k
  unfolding out_of_range_pass2
  left_lem guid k m m' valid all run = elim (Bool-cases (guid == m.active_player)) [
    | inl player ↦
        let same : m ≡ m' = some-injective m m' (rw (out_of_range_pass2, player) at run) in
        ap (λ x. entry storm laws x k) (sym same) ∙ player_turn left_behind guid k m player
    | inr other ↦ elim (Option-cases (storm.ptr guid m.objects)) [
      | inl e ↦
          let same : m ≡ m' = some-injective m m' (rw (out_of_range_pass2, other, e) at run) in
          ap (λ x. entry storm laws x k) (sym same)
          ∙ other_turn left_behind guid k m _ other
              (inactive-entry storm laws guid k left_behind m (left_inactive storm laws) e)
      | inr (a, e) ↦ elim (Bool-cases (is_object_locked (m.heap a))) [
        | inl locked ↦
            let same : m ≡ m' =
              some-injective m m' (rw (out_of_range_pass2, other, e, locked) at run) in
            ap (λ x. entry storm laws x k) (sym same)
            ∙ other_turn left_behind guid k m _ other (locked-entry storm laws guid a k m e locked)
        | inr free ↦
            let (fifo, listed) = all a in
            let ran : some (move_to_cleanup storm fifo a m) ≡ some m' =
              sym (pass2_run storm laws a fifo m listed)
              ∙ (rw (out_of_range_pass2, other, e, free) at run) in
            ap (λ x. entry storm laws x k) (sym (some-injective _ m' ran))
            ∙ other_turn left_behind guid k m _ other
                (move_to_cleanup-entry storm laws guid a k fifo m valid e free listed)
      ]
    ]
  ]

  module _ (d : DataStore) where
    loop1-entry :
        (now n : ℕ) (m : ClntObjMgr storm) (s : d.Store)
        → IsValid storm laws m
        → Kept storm laws m (out_of_range_loop1 d storm now n m s).0
          × ((out_of_range_loop1 d storm now n m s).1 ≡ skip_guids d n s)
          × ((k : ℕ)
              → entry storm laws (out_of_range_loop1 d storm now n m s).0 k
                ≡ in_turn (leaving now) m.active_player k (guids_of d n s) (entry storm laws m k))
    unfolding out_of_range_loop1 skip_guids
    loop1-entry now zero m s valid =
        (record { valid = valid; player = refl; steady = Steady-refl m.heap }, refl, λ k. refl)
    loop1-entry now (suc n) m s valid =
        let guid = (get_guid d s).0 in
        let gs = guids_of d n (get_guid d s).1 in
        let m1 = out_of_range_pass1 storm now guid m in
        let (kept, same) = pass1_lem storm laws now guid m valid in
        let (rest, place, entries) = loop1-entry now n m1 (get_guid d s).1 kept.valid in
        (
          Kept-then storm laws m m1 _ kept rest,
          place,
          λ k.
              entries k
              ∙ ap (λ p. in_turn (leaving now) p k gs (entry storm laws m1 k)) kept.player
              ∙ ap (in_turn (leaving now) m.active_player k gs) (leaving_lem now guid k m valid),
        )

    loop2-entry :
        (n : ℕ) (m : ClntObjMgr storm) (s : d.Store)
        → IsValid storm laws m
        → AllListed storm laws m.heap
        → (m' : ClntObjMgr storm) × (out_of_range_loop2 d storm n m s ≡ some (m', skip_guids d n s))
          × IsValid storm laws m'
          × ((k : ℕ)
              → entry storm laws m' k
                ≡ in_turn left_behind m.active_player k (guids_of d n s) (entry storm laws m k))
    unfolding out_of_range_loop2 skip_guids
    loop2-entry zero m s valid all = (m, refl, valid, λ k. refl)
    loop2-entry (suc n) m s valid all =
        let guid = (get_guid d s).0 in
        let gs = guids_of d n (get_guid d s).1 in
        let (m1, ran, kept, moved) = pass2_lem storm laws guid m valid all in
        let (m2, rest, valid2, entries) =
          loop2-entry n m1 (get_guid d s).1 kept.valid
            (AllListed_Steady storm laws m.heap m1.heap kept.steady all) in
        (
          m2,
          rw (out_of_range_loop2, ran) rest,
          valid2,
          λ k.
              entries k
              ∙ ap (λ p. in_turn left_behind p k gs (entry storm laws m1 k)) kept.player
              ∙ ap (in_turn left_behind m.active_player k gs) (left_lem guid k m m1 valid all ran),
        )

    -- With the two tables of objects apart, the objects under their keys, and every object of a type
    -- that has a list of disabled ones, a message that says which objects are out of range stays in the
    -- arrays, keeps the tables so, and is read to the end of the set. What the manager has under a GUID
    -- is changed for each time that the first pass reads it, and then for each time that the second
    -- does, and is else as it was, and so it is under the active player's. In the first pass an
    -- active object that is not locked is disabled at this time, and no longer pending; a locked one is
    -- to be disabled. In the second an active one that is not locked becomes disabled in its table, and
    -- of the lists is only in the one of its type. The other flags of these objects, and the lists of
    -- those that stay active, are as they were.
    pub update_out_of_range_objects-entry :
        (now : ℕ) (m : ClntObjMgr storm) (s : d.Store)
        → IsValid storm laws m
        → AllListed storm laws m.heap
        → (m' : ClntObjMgr storm) × (update_out_of_range_objects d storm now m s
            ≡ some (m', skip_guids d (d.get 4 s).0 (again d s)))
          × IsValid storm laws m'
          × ((k : ℕ)
              → entry storm laws m' k
                ≡ in_turn left_behind m.active_player k (guids_of d (d.get 4 s).0 (again d s)) (
                    in_turn
                      (leaving now)
                      m.active_player
                      k
                      (guids_of d (d.get 4 s).0 (d.get 4 s).1)
                      (entry storm laws m k)))
    unfolding update_out_of_range_objects skip_set_of_objects
    update_out_of_range_objects-entry now m s valid all =
        let n = (d.get 4 s).0 in
        let start = (d.get 4 s).1 in
        let first = out_of_range_loop1 d storm now n m start in
        let (kept, place, entries) = loop1-entry now n m start valid in
        let (m', ran, valid', entries') =
          loop2-entry n first.0 (d.seek (d.tell start) first.1) kept.valid
            (AllListed_Steady storm laws m.heap first.0.heap kept.steady all) in
        let seeks = ap (d.seek (d.tell start)) place in
        (
          m',
          ran ∙ ap (λ t. some (m', skip_guids d n t)) seeks,
          valid',
          λ k.
              entries' k
              ∙ ap
                  (λ p.
                    in_turn left_behind p k (guids_of d n (d.seek (d.tell start) first.1))
                      (entry storm laws first.0 k))
                  kept.player
              ∙ ap
                  (λ t.
                    in_turn left_behind m.active_player k (guids_of d n t)
                      (entry storm laws first.0 k))
                  seeks
              ∙ ap
                  (in_turn left_behind m.active_player k
                    (guids_of d n (d.seek (d.tell start) (skip_guids d n start))))
                  (entries k),
        )
