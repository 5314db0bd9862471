-- ===== src/Object/Update.antt =====
-- src/object/client/MessageHandlers.cpp: the sets of objects in a message, and the end of a message's
-- second pass.
pub mod Came
pub mod Went
pub mod InRange
pub mod Partial
pub mod Sleep
pub mod Reenable
mod Tests
use whoa.Base.{
  ℕ, zero, suc, ◌+◌, ◌≡◌, ◌==◌, not, ◌&&◌, if◌then◌else◌, Bool, true, false, List, [], ◌∷◌, Option,
  none, some,
}
use whoa.Object.DataStore.{DataStore}
use whoa.Object.Guid.{get_guid}
use whoa.Object.Mirror.{
  and_then, fill_in_partial_object_data, skip_partial_object_update, call_mirror_object,
}
use whoa.Object.ClientObject.{
  ClientObject, get_object_guid, is_object_locked, reenable, post_reenable,
}
use whoa.Object.Manager.{
  Storm, ObjectList, ClntObjMgr, change_object, find_active_object, get_update_object,
  handle_object_out_of_range_pass1, handle_object_out_of_range_pass2,
}

module _ (d : DataStore) where
  pub skip_guids : ℕ → d.Store → d.Store
  skip_guids zero s = s
  skip_guids (suc n) s = skip_guids n (get_guid d s).1

  -- `SkipSetOfObjects`
  pub skip_set_of_objects : d.Store → d.Store
  skip_set_of_objects s = skip_guids (d.get 4 s).0 (d.get 4 s).1

module _ (storm : Storm) where
  -- `if (object && reenable) object->Reenable()`
  abbrev pub reenable_found : (Option ℕ × Bool) × ClntObjMgr storm → ClntObjMgr storm
  reenable_found ((none, again), m) = m
  reenable_found ((some a, again), m) = if again then change_object storm a reenable m else m

  -- One GUID of UpdateInRangeObjects.
  pub update_in_range : ℕ → ClntObjMgr storm → ClntObjMgr storm
  update_in_range guid m =
      if guid == m.active_player then m else reenable_found (get_update_object storm guid m)

  -- One GUID in each of the two passes of UpdateOutOfRangeObjects.
  pub out_of_range_pass1 : ℕ → ℕ → ClntObjMgr storm → ClntObjMgr storm
  out_of_range_pass1 now guid m =
      if guid == m.active_player then m else elim (find_active_object storm guid m) [
        | none ↦ m
        | some a ↦ (handle_object_out_of_range_pass1 storm now a m).1
      ]

  pub out_of_range_pass2 : ℕ → ClntObjMgr storm → Option (ClntObjMgr storm)
  out_of_range_pass2 guid m =
      if guid == m.active_player then some m else elim (find_active_object storm guid m) [
        | none ↦ some m
        | some a ↦
            if is_object_locked (m.heap a)
            then some m
            else handle_object_out_of_range_pass2 storm a m
      ]

  -- The loop that ends the second pass of a message, in so many rounds; none when they are too few.
  pub finish_reenabling : ℕ → ClntObjMgr storm → Option (ClntObjMgr storm)
  finish_reenabling zero m = none
  finish_reenabling (suc n) m = elim (storm.head ObjectList.reenabled m.links) [
    | none ↦ some m
    | some a ↦ finish_reenabling n (record (change_object storm a post_reenable m) {
      links = storm.link_to_tail ObjectList.visible a m.links;
    })
  ]

module _ (d : DataStore) (storm : Storm) where
  pub in_range_loop : ℕ → ClntObjMgr storm → d.Store → ClntObjMgr storm × d.Store
  in_range_loop zero m s = (m, s)
  in_range_loop (suc n) m s =
      in_range_loop n (update_in_range storm (get_guid d s).0 m) (get_guid d s).1

  -- `UpdateInRangeObjects`
  pub update_in_range_objects : ClntObjMgr storm → d.Store → ClntObjMgr storm × d.Store
  update_in_range_objects m s = in_range_loop (d.get 4 s).0 m (d.get 4 s).1

  pub out_of_range_loop1 : ℕ → ℕ → ClntObjMgr storm → d.Store → ClntObjMgr storm × d.Store
  out_of_range_loop1 now zero m s = (m, s)
  out_of_range_loop1 now (suc n) m s =
      out_of_range_loop1 now n (out_of_range_pass1 storm now (get_guid d s).0 m) (get_guid d s).1

  pub out_of_range_loop2 : ℕ → ClntObjMgr storm → d.Store → Option (ClntObjMgr storm × d.Store)
  out_of_range_loop2 zero m s = some (m, s)
  out_of_range_loop2 (suc n) m s = elim (out_of_range_pass2 storm (get_guid d s).0 m) [
    | none ↦ none
    | some m' ↦ out_of_range_loop2 n m' (get_guid d s).1
  ]

  -- `UpdateOutOfRangeObjects`, at a time of the world's clock.
  pub update_out_of_range_objects :
      ℕ → ClntObjMgr storm → d.Store → Option (ClntObjMgr storm × d.Store)
  update_out_of_range_objects now m s =
      let count = (d.get 4 s).0 in
      let start = (d.get 4 s).1 in
      let first = out_of_range_loop1 now count m start in
      out_of_range_loop2 count first.0 (d.seek (d.tell start) first.1)

  -- The object of an update is written, and reenabled if it was disabled.
  abbrev pub updated : ℕ → Bool → ClientObject → ClntObjMgr storm → ClntObjMgr storm
  updated a again o m = change_object storm a (λ old. if again then reenable o else o) m

  -- `UpdateObject`; none when it leaves an array.
  pub update_object : ClntObjMgr storm → d.Store → Option ((Bool × ClntObjMgr storm) × d.Store)
  update_object m s =
      let guid = (get_guid d s).0 in
      let found = get_update_object storm guid m in
      elim found.0.0 [
        | none ↦
            and_then (skip_partial_object_update d (get_guid d s).1)
              (λ r. some ((r.0, found.1), r.1))
        | some a ↦
            and_then
              (fill_in_partial_object_data d found.1.active_player (found.1.heap a)
                (get_object_guid (found.1.heap a)) false (get_guid d s).1)
              (λ r. some ((r.0, updated a (r.0 && found.0.1) r.1 found.1), r.2))
      ]

  abbrev object_at : ClntObjMgr storm → Option ℕ → Option ClientObject
  object_at m none = none
  object_at m (some a) = some (m.heap a)

  -- `CallMirrorHandlers` for a message that goes on with the GUID.
  pub call_mirror_handlers : ClntObjMgr storm → d.Store → Option (Bool × d.Store)
  call_mirror_handlers m s =
      call_mirror_object d m.active_player (get_guid d s).0
        (object_at m (find_active_object storm (get_guid d s).0 m)) (get_guid d s).1
