-- ===== src/Object/Manager/Destroy.antt =====
-- Objects that go out of range or are destroyed, and come back.
use whoa.Base.{
  ℕ, ◌≡◌, ◌==◌, refl, ap, ◌∙◌, sym, arith, inl, inr, if◌then◌else◌, Bool, true, false, Bool-cases,
  Option, none, some, Option-cases,
}
use whoa.Object.ClientObject.{ClientObject, is_object_locked, set_disable_pending, disable}
use whoa.Object.Manager.{
  Storm, ObjectList, ClntObjMgr, change_object, on_heap, get_update_object,
  handle_object_out_of_range_pass1, handle_object_out_of_range_pass2, move_to_cleanup,
  lazy_cleanup_fifo, on_object_destroy,
}
use whoa.Object.Manager.Tables.{StormLaws, Split-move, insert_lem, unlink_object_lem}
use whoa.Object.Manager.Status.{
  active, disabled, status_of, address, is_disabled, asleep, woken, IsValid, status,
  change_object_key, unchanged, get_update_object_lem,
}

module _ (storm : Storm) (laws : StormLaws storm) where
  -- The list that the active object of a GUID is put to when it is disabled, if there is an active one.
  abbrev pub HasFifo : ClntObjMgr storm → ℕ → Type 0
  HasFifo m guid =
      (a : ℕ)
      → storm.ptr guid m.objects ≡ some a
      → (fifo : ObjectList) × (lazy_cleanup_fifo storm (m.heap a).type_id ≡ some fifo)

  heap_self :
      (a : ℕ) (f : ClientObject → ClientObject) (heap : ℕ → ClientObject)
      → on_heap storm a f heap a ≡ f (heap a)
  heap_self a f heap = let self : (a == a) ≡ true = ground arith in rw self refl

  pub pass2_run :
      (a : ℕ) (fifo : ObjectList) (m : ClntObjMgr storm)
      → lazy_cleanup_fifo storm (m.heap a).type_id ≡ some fifo
      → handle_object_out_of_range_pass2 storm a m ≡ some (move_to_cleanup storm fifo a m)
  unfolding handle_object_out_of_range_pass2
  pass2_run a fifo m listed = rw (handle_object_out_of_range_pass2, listed) refl

  -- The second pass on an active object.
  pub move_to_cleanup_lem :
      (guid a : ℕ) (fifo : ObjectList) (m : ClntObjMgr storm)
      → IsValid storm laws m
      → storm.ptr guid m.objects ≡ some a
      → IsValid storm laws (move_to_cleanup storm fifo a m)
        × ((k : ℕ)
            → status storm laws (move_to_cleanup storm fifo a m) k
              ≡ (if k == guid then disabled a else status storm laws m k))
  move_to_cleanup_lem guid a fifo m valid e = (
    rw key at (Split-move storm laws m.objects m.lazy_cleanup_objects m.heap guid a valid e),
    λ k. moved k,
  )
    where
      key : guid ≡ (m.heap a).key
      key = sym (valid.keyed guid a e)

      moved :
          (k : ℕ)
          → status storm laws (move_to_cleanup storm fifo a m) k
            ≡ (if k == guid then disabled a else status storm laws m k)
      moved k =
          let there =
            ap (λ g. storm.ptr k (storm.insert a g m.lazy_cleanup_objects)) (sym key)
            ∙ insert_lem storm laws m.objects m.lazy_cleanup_objects m.heap guid a k valid e in
          let gone = unlink_object_lem storm laws m.objects m.heap guid a k valid.keyed e in
          elim (Bool-cases (k == guid)) [
            | inl same ↦ rw (there, gone, same) refl
            | inr other ↦ rw (there, gone, other) refl
          ]

  abbrev pub is_locked_at : ClntObjMgr storm → Option ℕ → Bool
  is_locked_at m none = false
  is_locked_at m (some a) = is_object_locked (m.heap a)

  asleep_inactive : (o : Option ℕ) → asleep (status_of none o) ≡ status_of none o
  asleep_inactive none = refl
  asleep_inactive (some a) = refl

  -- Whether the object of a GUID is active and locked.
  abbrev pub is_held : ClntObjMgr storm → ℕ → Bool
  is_held m guid = is_locked_at m (storm.ptr guid m.objects)

  -- With the two tables apart, and their objects under their keys, and an active object of one of the
  -- types that have a list: destroying the object of a GUID keeps the tables so, and moves exactly
  -- this one to that of the disabled objects, if it is active and not locked.
  pub on_object_destroy_lem :
      (now guid : ℕ) (m : ClntObjMgr storm)
      → IsValid storm laws m
      → HasFifo m guid
      → (m' : ClntObjMgr storm) × (on_object_destroy storm now guid m ≡ some m')
        × IsValid storm laws m'
        × ((k : ℕ)
            → status storm laws m' k ≡ (
                if k == guid
                then if is_held m guid
                  then status storm laws m guid
                  else asleep (status storm laws m guid)
                else status storm laws m k))
  unfolding handle_object_out_of_range_pass1 on_object_destroy
  on_object_destroy_lem now guid m valid has = elim (Option-cases (storm.ptr guid m.objects)) [
    | inl e ↦ (
      m,
      rw (on_object_destroy, e) refl,
      valid,
      λ k. rw e (
          unchanged storm laws guid k
            (asleep (status_of none (storm.ptr guid m.lazy_cleanup_objects))) m
            (rw e (sym (asleep_inactive (storm.ptr guid m.lazy_cleanup_objects))))),
    )
    | inr (a, e) ↦ elim (Bool-cases (is_object_locked (m.heap a))) [
      | inl locked ↦ (
        change_object storm a (set_disable_pending true) m,
        rw (on_object_destroy, e, locked) refl,
        change_object_key storm laws a (set_disable_pending true) m (λ o. refl) valid,
        λ k. rw (e, locked) (unchanged storm laws guid k (active a) m (rw e refl)),
      )
      | inr free ↦
          let f = λ (o : ClientObject). disable now (set_disable_pending false o) in
          let m1 = change_object storm a f m in
          let (fifo, listed) = has a e in
          let listed1 =
            ap (λ o. lazy_cleanup_fifo storm o.type_id) (heap_self a f m.heap) ∙ listed in
          let valid1 = change_object_key storm laws a f m (λ o. refl) valid in
          let (valid', moved) = move_to_cleanup_lem guid a fifo m1 valid1 e in
          (
            move_to_cleanup storm fifo a m1,
            rw (on_object_destroy, e, free) (pass2_run a fifo m1 listed1),
            valid',
            λ k. rw (e, free) (moved k),
          )
    ]
  ]

  -- With the two tables apart, and their objects under their keys: an active object that is not
  -- locked, and of a type that has a list, can be destroyed, and is found again by the next lookup
  -- for an update, to be reenabled; each GUID's object is then in the table it was in before.
  pub get_update_object-on_object_destroy :
      (now guid a : ℕ) (m : ClntObjMgr storm)
      → IsValid storm laws m
      → HasFifo m guid
      → storm.ptr guid m.objects ≡ some a
      → is_object_locked (m.heap a) ≡ false
      → (m' : ClntObjMgr storm) × (on_object_destroy storm now guid m ≡ some m')
        × ((get_update_object storm guid m').0 ≡ (some a, true))
        × ((k : ℕ)
            → status storm laws (get_update_object storm guid m').1 k ≡ status storm laws m k)
  get_update_object-on_object_destroy now guid a m valid has e free =
      let (m', ran, valid', moved) = on_object_destroy_lem now guid m valid has in
      let (valid2, found, back, tail) = get_update_object_lem storm laws guid m' valid' in
      let self : (guid == guid) ≡ true = ground arith in
      let slept : status storm laws m' guid ≡ disabled a = moved guid ∙ rw (self, e, free) refl in
      (
        m',
        ran,
        found ∙ ap (λ s. (address s, is_disabled s)) slept,
        λ k. back k ∙ elim (Bool-cases (k == guid)) [
          | inl same ↦
              let here : k ≡ guid = ground (arith, same) in
              rw same (ap woken slept ∙ sym (ap (status storm laws m) here ∙ rw e refl))
          | inr other ↦ rw other (rw other at (moved k))
        ],
      )
