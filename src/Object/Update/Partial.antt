-- ===== src/Object/Update/Partial.antt =====
-- A partial update in the two passes over its message.
use whoa.Base.{
  ℕ, ◌≤◌, ◌≡◌, ◌==◌, refl, ap, ◌∙◌, arith, if◌then◌else◌, Bool, true, false, Bool-cases, inl, inr,
  List, length, Option, none, some,
}
use mathlib.Core.Option.{none-ne-some}
use whoa.Object.DataStore.{DataStore}
use whoa.Object.Guid.{get_guid}
use whoa.Object.ClientObject.{ClientObject, get_type, get_object_guid, reenable}
use whoa.Object.Manager.{Storm, ClntObjMgr, on_heap, get_update_object}
use whoa.Object.Manager.Tables.{StormLaws}
use whoa.Object.Manager.Status.{
  Status, absent, active, disabled, status_of, status, address, woken, IsValid,
  get_update_object_lem, get_update_object_player, get_update_object_storage,
}
use whoa.Object.Mirror.{extract_dirty_masks, get_num_dword_blocks, call_mirror_object}
use whoa.Object.Mirror.Fill.{field_after}
use whoa.Object.Mirror.Passes.{call_mirror_object-fill, call_mirror_object-reenable}
use whoa.Object.Update.{updated, update_object, call_mirror_handlers}

abbrev tag : Status → ℕ
tag absent = 0
tag (active a) = 1
tag (disabled a) = 2

-- A GUID of an active object is in the table.
active_found : (x y : Option ℕ) (a : ℕ) → status_of x y ≡ active a → x ≡ some a
active_found (some b) y a e = ap address e
active_found none (some b) a e = absurd (omega (arith, ap tag e))
active_found none none a e = absurd (omega (arith, ap tag e))

woken-address : (x : Status) (a : ℕ) → address x ≡ some a → woken x ≡ active a
woken-address absent a e = absurd (none-ne-some a e)
woken-address (active b) a e = ap (λ o. status_of o none) e
woken-address (disabled b) a e = ap (λ o. status_of o none) e

module _ (d : DataStore) (storm : Storm) (laws : StormLaws storm) (m : ClntObjMgr storm)
    (s : d.Store) where
  abbrev guid : ℕ
  guid = (get_guid d s).0

  abbrev body : d.Store
  body = (get_guid d s).1

  -- With the two tables of objects apart, and the objects under their keys: for a message with masks
  -- for the object of its GUID, active or disabled, that has its GUID and room for the fields of its
  -- type and that keeps its type, the update of the first pass and the handlers of the second one
  -- both succeed, and read the message to the same place; the object is active then.
  pub call_mirror_handlers-update_object :
      (a : ℕ) (masks : ℕ × List ℕ)
      → IsValid storm laws m
      → address (status storm laws m guid) ≡ some a
      → (extract_dirty_masks d body).0 ≡ some masks
      → get_object_guid (m.heap a) ≡ guid
      → get_num_dword_blocks m.active_player (get_type (m.heap a)) guid ≤ length (m.heap a).storage
      → field_after d masks.1 (extract_dirty_masks d body).1 false (m.heap a).storage 2
        ≡ get_type (m.heap a)
      → (m' : ClntObjMgr storm) × (t : d.Store) × (update_object d storm m s ≡ some ((true, m'), t))
        × (call_mirror_handlers d storm m' s ≡ some (true, t))
        × (status storm laws m' guid ≡ active a)
  unfolding update_object call_mirror_handlers
  call_mirror_handlers-update_object a masks valid there e own room keeps =
      let found = get_update_object storm guid m in
      let (valid1, result, moved, tail) = get_update_object_lem storm laws guid m valid in
      let stored = get_update_object_storage storm guid a m in
      let player = get_update_object_player storm guid m in
      let self : (guid == guid) ≡ true = ground arith in
      let awake : status storm laws found.1 guid ≡ active a =
        moved guid ∙ rw self (woken-address (status storm laws m guid) a there) in
      let in_table : storm.ptr guid found.1.objects ≡ some a =
        active_found (storm.ptr guid found.1.objects) (storm.ptr guid found.1.lazy_cleanup_objects)
          a awake in
      let at : found.0.0 ≡ some a = ap (λ r. r.0) result ∙ there in
      let same_guid : get_object_guid (found.1.heap a) ≡ guid = rw stored own in
      let (o', t, filled, mirrored) =
        call_mirror_object-fill d body masks found.1.active_player guid (found.1.heap a) false e
          (rw (player, stored) room) (rw stored keeps) in
      (
        updated d storm a found.0.1 o' found.1,
        t,
        rw (update_object, at, same_guid, filled) refl,
        rw (call_mirror_handlers, in_table) (seen o' t found.0.1 mirrored),
        awake,
      )
    where
      seen :
          (o' : ClientObject) (t : d.Store) (again : Bool)
          → call_mirror_object d
              (get_update_object storm guid m).1.active_player
              guid
              (some o')
              body
            ≡ some (true, t)
          → call_mirror_object d
              (get_update_object storm guid m).1.active_player
              guid
              (some (
                on_heap storm a
                  (λ old. if again then reenable o' else o')
                  (get_update_object storm guid m).1.heap
                  a))
              body
            ≡ some (true, t)
      seen o' t again mirrored =
          let self : (a == a) ≡ true = ground arith in
          rw self (elim (Bool-cases again) [
            | inl woke ↦ rw woke (
                call_mirror_object-reenable d (get_update_object storm guid m).1.active_player guid
                  o' body
                ∙ mirrored)
            | inr stayed ↦ rw stayed mirrored
          ])
