-- ===== src/Object/Manager/Entry/Lookup.antt =====
-- GetUpdateObject, and reenabling what it found, on the entries of the manager.
use whoa.Base.{
  ℕ, ◌≡◌, ◌==◌, refl, ◌∙◌, sym, arith, inl, inr, if◌then◌else◌, true, false, some, Option-cases,
}
use whoa.Object.ClientObject.{ClientObject, set_disable_pending}
use whoa.Object.Manager.{
  Storm, ObjectList, ClntObjMgr, change_object, on_heap, wake, get_update_object,
}
use whoa.Object.Manager.Lists.{elem, elem-unlink, elem-link_to_tail}
use whoa.Object.Manager.Tables.{StormLaws}
use whoa.Object.Manager.Status.{
  reenabled_after, active, status, IsValid, unchanged, address, is_disabled, wake_lem,
  get_update_object_lem,
}
use whoa.Object.Manager.Entry.{
  in_only, mapped, looked_up, entry, entry_of, Touches, step_lem, step_none,
}

module _ (storm : Storm) (laws : StormLaws storm) where
  open laws use {members}

  pub heap_self :
      (a : ℕ) (f : ClientObject → ClientObject) (heap : ℕ → ClientObject)
      → on_heap storm a f heap a ≡ f (heap a)
  heap_self a f heap = let self : (a == a) ≡ true = ground arith in rw self refl

  -- A change of one object.
  pub Touches-change_object :
      (a : ℕ) (f : ClientObject → ClientObject) (m : ClntObjMgr storm)
      → Touches storm laws a m (change_object storm a f m)
  Touches-change_object a f m = record {
    objects = λ b other. rw other refl;
    lists = λ l b other. refl;
  }

  wake_links :
      (guid a b : ℕ) (l : ObjectList) (m : ClntObjMgr storm)
      → elem b (members l (wake storm guid a m).1.links)
        ≡ (if b == a then in_only ObjectList.reenabled l else elem b (members l m.links))
  unfolding wake
  wake_links guid a b l m =
      let u = laws.unlinked ObjectList.visible a m.links in
      let v = laws.unlinked ObjectList.reenabled a m.links in
      rw (wake, u, v)
        (elem-link_to_tail storm laws ObjectList.reenabled l a b (storm.unlink a m.links)
          ∙ ground (arith, elem-unlink storm laws l a b m.links))

  Touches-wake :
      (guid a : ℕ) (m : ClntObjMgr storm) → Touches storm laws a m (wake storm guid a m).1
  unfolding wake
  Touches-wake guid a m = record {
    objects = λ b other. rw other refl;
    lists = λ l b other. wake_links guid a b l m ∙ rw other refl;
  }

  wake_object :
      (guid a : ℕ) (m : ClntObjMgr storm)
      → (m.heap a).key ≡ guid
      → (wake storm guid a m).1.heap a ≡ m.heap a
  unfolding wake
  wake_object guid a m key =
      heap_self a (λ o. record o { key = guid }) m.heap
      ∙ (λ i. record (m.heap a) { key = sym key i })

  -- What is at the address of a woken object.
  woken_entry :
      (guid a : ℕ) (m : ClntObjMgr storm)
      → (m.heap a).key ≡ guid
      → entry_of storm laws (active a) (wake storm guid a m).1
        ≡ some (record {
          is_active = true;
          address = a;
          object = m.heap a;
          lists = in_only ObjectList.reenabled;
        })
  woken_entry guid a m key i = some (record {
    is_active = true;
    address = a;
    object = wake_object guid a m key i;
    lists = λ l. only l i;
  })
    where
      only :
          (l : ObjectList)
          → elem a (members l (wake storm guid a m).1.links) ≡ in_only ObjectList.reenabled l
      only l =
          let self : (a == a) ≡ true = ground arith in
          let here = wake_links guid a a l m in rw self at here

  pub active_entry :
      (a : ℕ) (o : ClientObject) (m m' : ClntObjMgr storm)
      → m'.heap a ≡ o
      → m'.links ≡ m.links
      → entry_of storm laws (active a) m'
        ≡ some (record {
          is_active = true;
          address = a;
          object = o;
          lists = λ l. elem a (members l m.links);
        })
  active_entry a o m m' at same i = some (record {
    is_active = true;
    address = a;
    object = at i;
    lists = λ l. elem a (members l (same i));
  })

  -- With the two tables apart, and their objects under their keys, looking up an object for an update
  -- keeps them so. It returns the object of the GUID, if there is one, to be reenabled exactly if it
  -- is disabled. A disabled one is then active, and of the lists only in the reenabled, where it is the
  -- last, with its flags as they were; an active one is no longer to be disabled, with its other flags
  -- and its lists as they were; and every other GUID's object is in its table, with its flags, and in
  -- its lists as before.
  pub get_update_object-entry :
      (guid : ℕ) (m : ClntObjMgr storm)
      → IsValid storm laws m
      → IsValid storm laws (get_update_object storm guid m).1
        × ((get_update_object storm guid m).0
            ≡ (address (status storm laws m guid), is_disabled (status storm laws m guid)))
        × ((k : ℕ)
            → entry storm laws (get_update_object storm guid m).1 k ≡ (
                if k == guid
                then mapped looked_up (entry storm laws m k)
                else entry storm laws m k))
        × (members ObjectList.reenabled (get_update_object storm guid m).1.links
            ≡ reenabled_after (status storm laws m guid) (members ObjectList.reenabled m.links))
  unfolding get_update_object
  get_update_object-entry guid m valid =
      let (valid', found, moved, tail) = get_update_object_lem storm laws guid m valid in
      (valid', found, λ k. entries k, tail)
    where
      entries :
          (k : ℕ)
          → entry storm laws (get_update_object storm guid m).1 k
            ≡ (if k == guid then mapped looked_up (entry storm laws m k) else entry storm laws m k)
      entries k = elim (Option-cases (storm.ptr guid m.objects)) [
        | inr (a, e) ↦
            let f = set_disable_pending false in
            rw (get_update_object, e)
              (step_lem storm laws guid a (active a) looked_up m (change_object storm a f m) valid
                (valid.keyed guid a e) (Touches-change_object a f m)
                (λ j. unchanged storm laws guid j (active a) m (rw e refl))
                (rw e (
                  active_entry a (f (m.heap a)) m (change_object storm a f m) (heap_self a f m.heap)
                    refl))
                k)
        | inl e ↦ elim (Option-cases (storm.ptr guid m.lazy_cleanup_objects)) [
          | inr (a, e') ↦
              let (ok, again, tail, moved) = wake_lem storm laws guid a m valid e' in
              rw (get_update_object, e, e')
                (step_lem storm laws guid a (active a) looked_up m (wake storm guid a m).1 valid
                  (valid.keyed_other guid a e') (Touches-wake guid a m) moved
                  (rw (e, e') (woken_entry guid a m (valid.keyed_other guid a e'))) k)
          | inl e' ↦
              rw (get_update_object, e, e')
                (step_none storm laws guid k looked_up m (rw (e, e') refl))
        ]
      ]
