-- ===== src/Object/Update/Came.antt =====
-- UpdateInRangeObjects on the entries of the manager.
use whoa.Base.{
  ℕ, zero, suc, ◌≡◌, ◌==◌, refl, ap, ◌∙◌, sym, arith, not, ◌&&◌, inl, inr, if◌then◌else◌, true,
  false, Bool-cases, Option, none, some, Option-cases,
}
use whoa.Object.DataStore.{DataStore}
use whoa.Object.Guid.{get_guid}
use whoa.Object.ClientObject.{reenable}
use whoa.Object.Manager.{Storm, ClntObjMgr, change_object, get_update_object}
use whoa.Object.Manager.Tables.{StormLaws}
use whoa.Object.Manager.Status.{
  Status, status_of, active, status, IsValid, unchanged, get_update_object_lem,
}
use whoa.Object.Manager.Entry.{
  Entry, mapped, looked_up, in_range, in_turn, entry, step_lem, same_change, mapped-mapped,
}
use whoa.Object.Manager.Entry.Lookup.{
  heap_self, Touches-change_object, active_entry, get_update_object-entry,
}
use whoa.Object.Update.{
  skip_guids, skip_set_of_objects, reenable_found, update_in_range, in_range_loop,
  update_in_range_objects,
}
use whoa.Object.Update.InRange.{guids_of, update_in_range_lem}

-- After `Reenable`.
abbrev reenabled_entry : Entry → Entry
reenabled_entry e = record e { object = record e.object { disabled = false; in_reenable = true } }

abbrev active_of : Status → Option ℕ
active_of (active a) = some a
active_of other = none

active_of-status_of : (o p : Option ℕ) → active_of (status_of o p) ≡ o
active_of-status_of (some a) p = refl
active_of-status_of none (some a) = refl
active_of-status_of none none = refl

module _ (storm : Storm) (laws : StormLaws storm) where
  now_active :
      (guid a : ℕ) (m : ClntObjMgr storm)
      → status storm laws m guid ≡ active a
      → storm.ptr guid m.objects ≡ some a
  now_active guid a m e =
      sym (active_of-status_of (storm.ptr guid m.objects) (storm.ptr guid m.lazy_cleanup_objects))
      ∙ ap active_of e

  reenable-entry :
      (guid a k : ℕ) (m : ClntObjMgr storm)
      → IsValid storm laws m
      → storm.ptr guid m.objects ≡ some a
      → entry storm laws (change_object storm a reenable m) k ≡ (
          if k == guid then mapped reenabled_entry (entry storm laws m k) else entry storm laws m k)
  reenable-entry guid a k m valid e =
      step_lem storm laws guid a (active a) reenabled_entry m (change_object storm a reenable m)
        valid (valid.keyed guid a e) (Touches-change_object storm laws a reenable m)
        (λ j. unchanged storm laws guid j (active a) m (rw e refl))
        (rw e (
          active_entry storm laws a (reenable (m.heap a)) m (change_object storm a reenable m)
            (heap_self storm laws a reenable m.heap) refl))
        k

  found-entry :
      (guid k : ℕ) (m : ClntObjMgr storm)
      → IsValid storm laws m
      → entry storm laws (reenable_found storm (get_update_object storm guid m)) k
        ≡ (if k == guid then mapped in_range (entry storm laws m k) else entry storm laws m k)
  found-entry guid k m valid =
      let r = get_update_object storm guid m in
      let (valid1, found, entries, tail) = get_update_object-entry storm laws guid m valid in
      let run = ap (λ x. entry storm laws (reenable_found storm (x, r.1)) k) found in
      run ∙ elim (Option-cases (storm.ptr guid m.objects)) [
        | inr (a, e) ↦
            rw (e) (entries k ∙ same_change storm laws guid k looked_up in_range m (rw e refl))
        | inl e ↦ elim (Option-cases (storm.ptr guid m.lazy_cleanup_objects)) [
          | inr (a, e') ↦
              let (valid2, found2, moved, tail2) = get_update_object_lem storm laws guid m valid in
              rw (e, e')
                (reenable-entry guid a k r.1 valid1
                    (now_active guid a r.1 (moved guid ∙ rw (self, e, e') refl))
                  ∙ ap (λ x. if k == guid then mapped reenabled_entry x else x) (entries k)
                  ∙ mapped-mapped looked_up reenabled_entry (k == guid) (entry storm laws m k)
                  ∙ same_change storm laws guid k (λ x. reenabled_entry (looked_up x)) in_range m
                      (rw (e, e') refl))
          | inl e' ↦
              rw (e, e')
                (entries k ∙ same_change storm laws guid k looked_up in_range m (rw (e, e') refl))
        ]
      ]
    where
      self : (guid == guid) ≡ true
      self = ground arith

  came_lem :
      (guid : ℕ) (m : ClntObjMgr storm)
      → IsValid storm laws m
      → (k : ℕ)
      → entry storm laws (update_in_range storm guid m) k ≡ (
          if (k == guid) && not (k == m.active_player)
          then mapped in_range (entry storm laws m k)
          else entry storm laws m k)
  unfolding update_in_range
  came_lem guid m valid k = elim (Bool-cases (guid == m.active_player)) [
    | inl player ↦
        let never : ((k == guid) && not (k == m.active_player)) ≡ false = ground (arith, player) in
        rw (update_in_range, player, never) refl
    | inr other ↦
        let here : ((k == guid) && not (k == m.active_player)) ≡ (k == guid) =
          ground (arith, other) in
        rw (update_in_range, other, here) (found-entry guid k m valid)
  ]

  module _ (d : DataStore) where
    in_range_loop-entry :
        (n k : ℕ) (m : ClntObjMgr storm) (s : d.Store)
        → IsValid storm laws m
        → IsValid storm laws (in_range_loop d storm n m s).0
          × ((in_range_loop d storm n m s).1 ≡ skip_guids d n s)
          × (entry storm laws (in_range_loop d storm n m s).0 k
              ≡ in_turn in_range m.active_player k (guids_of d n s) (entry storm laws m k))
    unfolding in_range_loop skip_guids
    in_range_loop-entry zero k m s valid = (valid, refl, refl)
    in_range_loop-entry (suc n) k m s valid =
        let guid = (get_guid d s).0 in
        let gs = guids_of d n (get_guid d s).1 in
        let m1 = update_in_range storm guid m in
        let (valid1, player, first) = update_in_range_lem storm laws guid m valid in
        let (valid2, place, rest) = in_range_loop-entry n k m1 (get_guid d s).1 valid1 in
        (
          valid2,
          place,
          rest
              ∙ ap (λ p. in_turn in_range p k gs (entry storm laws m1 k)) player
              ∙ ap (in_turn in_range m.active_player k gs) (came_lem guid m valid k),
        )

    -- With the two tables of objects apart, and the objects under their keys, a message that says
    -- which objects are in range keeps them so, and is read to the place that skipping the set leads
    -- to. What the manager has under a GUID is changed for each time that the set has it, and else as
    -- it was, and so it is under the active player's: a disabled object becomes active and enabled, is
    -- being reenabled, and of the lists is only in the reenabled; an active one is no longer to be
    -- disabled. The other flags of these objects, and the lists of active ones, stay.
    pub update_in_range_objects-entry :
        (m : ClntObjMgr storm) (s : d.Store)
        → IsValid storm laws m
        → IsValid storm laws (update_in_range_objects d storm m s).0
          × ((update_in_range_objects d storm m s).1 ≡ skip_set_of_objects d s)
          × ((k : ℕ)
              → entry storm laws (update_in_range_objects d storm m s).0 k
                ≡ in_turn in_range m.active_player k
                    (guids_of d (d.get 4 s).0 (d.get 4 s).1)
                    (entry storm laws m k))
    unfolding update_in_range_objects skip_set_of_objects
    update_in_range_objects-entry m s valid =
        let n = (d.get 4 s).0 in
        let (valid', place, rest) = in_range_loop-entry n 0 m (d.get 4 s).1 valid in
        (valid', place, λ k. (in_range_loop-entry n k m (d.get 4 s).1 valid).2)
