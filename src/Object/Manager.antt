-- ===== src/Object/Manager.antt =====
-- src/object/client/Util.cpp, ObjMgr.cpp and OnObjectDestroy in MessageHandlers.cpp: the objects of
-- the client, those that are active and those that wait to be freed, by their GUIDs. The hash tables
-- and the lists are those of storm, which is not code of the repository: an interface, with what the
-- code relies on as its laws. An object is known by its address.
pub mod Tables
pub mod Lists
pub mod Status
pub mod Entry
pub mod Destroy
pub mod Collect
pub mod Tests
use whoa.Base.{
  ℕ, zero, suc, ◌+◌, ◌-◌, ◌%◌, ◌^◌, ◌≡◌, ◌==◌, ltb, bit_and, not, ◌&&◌, if◌then◌else◌, Bool, true,
  false, List, [], ◌∷◌, ◌++◌, Option, none, some,
}
pub use whoa.Base.Removal.{remove}
use whoa.Object.Types.{ObjectTypeId}
use whoa.Object.ClientObject.{
  ClientObject, get_type, get_object_guid, is_object_locked, set_disable_pending, disable, reenable,
  post_reenable,
}

-- The lists that an object's one link can be in.
pub data ObjectList : Type 0 where
  visible : ObjectList
  reenabled : ObjectList
  lazy_cleanup : ObjectTypeId → ObjectList

-- An entry of a table, unless it is one object's.
abbrev pub without : ℕ → Option ℕ → Option ℕ
without a none = none
without a (some b) = if b == a then none else some b

pub record Storm : Type 1 where
  -- TSHashTable, with the keys of the objects
  pub Table : Type 0
  pub ptr : ℕ → Table → Option ℕ
  pub insert : ℕ → ℕ → Table → Table
  pub unlink_object : ℕ → Table → Table
  -- The links of all objects, TSLink and STORM_EXPLICIT_LIST
  pub Links : Type 0
  pub head : ObjectList → Links → Option ℕ
  pub is_linked : ObjectList → ℕ → Links → Bool
  pub link_to_tail : ObjectList → ℕ → Links → Links
  pub unlink : ℕ → Links → Links
  pub unlink_node : ObjectList → ℕ → Links → Links

module _ (storm : Storm) where
  pub record ClntObjMgr : Type 0 where
    pub objects : storm.Table
    pub lazy_cleanup_objects : storm.Table
    pub links : storm.Links
    pub active_player : ℕ
    -- What is at an address
    pub heap : ℕ → ClientObject

  abbrev pub on_heap : ℕ → (ClientObject → ClientObject) → (ℕ → ClientObject) → ℕ → ClientObject
  on_heap a f heap b = if b == a then f (heap b) else heap b

  abbrev pub change_object : ℕ → (ClientObject → ClientObject) → ClntObjMgr → ClntObjMgr
  change_object a f m = record m { heap = on_heap a f m.heap }

  -- A table's insert sets the key in the object.
  abbrev pub with_key : ℕ → ClientObject → ClientObject
  with_key k o = record o { key = k }

  abbrev pub find_active_object : ℕ → ClntObjMgr → Option ℕ
  find_active_object guid m = storm.ptr guid m.objects

  -- The disabled object's branch of GetUpdateObject.
  pub wake : ℕ → ℕ → ClntObjMgr → Bool × ClntObjMgr
  wake guid a m =
      let links = storm.unlink a m.links in
      let again =
        not (storm.is_linked ObjectList.visible a links)
        && not (storm.is_linked ObjectList.reenabled a links) in
      (
        again,
        record (change_object a (with_key guid) m) {
          lazy_cleanup_objects = storm.unlink_object a m.lazy_cleanup_objects;
          objects = storm.insert a guid m.objects;
          links = if again then storm.link_to_tail ObjectList.reenabled a links else links;
        },
      )

  -- `GetUpdateObject`: the object and whether it is to be reenabled.
  pub get_update_object : ℕ → ClntObjMgr → (Option ℕ × Bool) × ClntObjMgr
  get_update_object guid m = elim (find_active_object guid m) [
    | some a ↦ ((some a, false), change_object a (set_disable_pending false) m)
    | none ↦ elim (storm.ptr guid m.lazy_cleanup_objects) [
      | some a ↦ ((some a, (wake guid a m).0), (wake guid a m).1)
      | none ↦ ((none, false), m)
    ]
  ]

  -- `HandleObjectOutOfRangePass1`, at a time of the world's clock.
  unfoldable pub handle_object_out_of_range_pass1 : ℕ → ℕ → ClntObjMgr → Bool × ClntObjMgr
  handle_object_out_of_range_pass1 now a m =
      if is_object_locked (m.heap a)
      then (false, change_object a (set_disable_pending true) m)
      else (true, change_object a (λ o. disable now (set_disable_pending false o)) m)

  -- `m_lazyCleanupFifo[typeID - 1]`; none out of the array.
  abbrev pub lazy_cleanup_fifo : ObjectTypeId → Option ObjectList
  lazy_cleanup_fifo ObjectTypeId.object = none
  lazy_cleanup_fifo ObjectTypeId.num_client_object_types = none
  lazy_cleanup_fifo id = some (ObjectList.lazy_cleanup id)

  abbrev pub unlink_visible : ℕ → storm.Links → storm.Links
  unlink_visible a links =
      if storm.is_linked ObjectList.visible a links
      then storm.unlink_node ObjectList.visible a links
      else links

  -- The moves of HandleObjectOutOfRangePass2.
  abbrev pub move_to_cleanup : ObjectList → ℕ → ClntObjMgr → ClntObjMgr
  move_to_cleanup fifo a m = record m {
    objects = storm.unlink_object a m.objects;
    lazy_cleanup_objects = storm.insert a (m.heap a).key m.lazy_cleanup_objects;
    links = storm.link_to_tail fifo a (unlink_visible a m.links);
    heap = on_heap a (with_key (m.heap a).key) m.heap;
  }

  -- `HandleObjectOutOfRangePass2`; none when it leaves the array of lists.
  pub handle_object_out_of_range_pass2 : ℕ → ClntObjMgr → Option ClntObjMgr
  handle_object_out_of_range_pass2 a m = elim (lazy_cleanup_fifo (m.heap a).type_id) [
    | none ↦ none
    | some fifo ↦ some (move_to_cleanup fifo a m)
  ]

  -- `OnObjectDestroy`, for the GUID of its message.
  pub on_object_destroy : ℕ → ℕ → ClntObjMgr → Option ClntObjMgr
  on_object_destroy now guid m = elim (find_active_object guid m) [
    | none ↦ some m
    | some a ↦
        if (handle_object_out_of_range_pass1 now a m).0
        then handle_object_out_of_range_pass2 a (handle_object_out_of_range_pass1 now a m).1
        else some (handle_object_out_of_range_pass1 now a m).1
  ]

  -- `GarbageCollect`, without what freeing does: the manager, and the object to free.
  pub garbage_collect : ℕ → ObjectTypeId → ℕ → ClntObjMgr → Option (Option ℕ × ClntObjMgr)
  garbage_collect now id collect_age_ms m = elim (lazy_cleanup_fifo id) [
    | none ↦ none
    | some fifo ↦ elim (storm.head fifo m.links) [
      | none ↦ some (none, m)
      | some a ↦
          if ltb ((now + 2 ^ 32 - (m.heap a).disable_time_ms) % 2 ^ 32) collect_age_ms
          then some (none, m)
          else some (
            some a,
            record m {
              lazy_cleanup_objects = storm.unlink_object a m.lazy_cleanup_objects;
              links = storm.unlink a m.links;
            },
          )
    ]
  ]

  -- `ClntObjMgrLinkInNewObject`
  pub link_in_new_object : ℕ → ClntObjMgr → ClntObjMgr
  link_in_new_object a m =
      let guid = get_object_guid (m.heap a) in
      record (change_object a (with_key guid) m) { objects = storm.insert a guid m.objects }

  -- `ClntObjMgrObjectPtr`, with the current manager, if there is one.
  pub object_ptr : ℕ → ℕ → Option ClntObjMgr → Option ℕ
  object_ptr guid type none = none
  object_ptr guid type (some m) = if guid == 0 then none else elim (find_active_object guid m) [
    | none ↦ none
    | some a ↦ if bit_and (get_type (m.heap a)) type == 0 then none else some a
  ]
