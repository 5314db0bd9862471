-- ===== src/Object/Manager/Entry/Leave.antt =====
-- HandleObjectOutOfRangePass1 and HandleObjectOutOfRangePass2, and OnObjectDestroy, on the entries of
-- the manager.
use whoa.Base.{
  ℕ, ◌≡◌, ◌==◌, refl, ap, ◌∙◌, sym, arith, inl, inr, if◌then◌else◌, true, false, Bool-cases, none,
  some, Option-cases,
}
use mathlib.Core.Option.{some-injective, none-ne-some}
use whoa.Object.Types.{ObjectTypeId}
use whoa.Object.ClientObject.{ClientObject, is_object_locked, set_disable_pending, disable}
use whoa.Object.Manager.{
  Storm, ObjectList, ClntObjMgr, change_object, move_to_cleanup, lazy_cleanup_fifo,
  handle_object_out_of_range_pass1, on_object_destroy, unlink_visible,
}
use whoa.Object.Manager.Lists.{elem, elem-link_to_tail, elem-unlink_visible}
use whoa.Object.Manager.Tables.{StormLaws}
use whoa.Object.Manager.Status.{active, disabled, IsValid, change_object_key, unchanged}
use whoa.Object.Manager.Destroy.{HasFifo, pass2_run, move_to_cleanup_lem}
use whoa.Object.Manager.Entry.{
  Entry, in_only, mapped, mapped-mapped, leaving, left_behind, entry, entry_of, Touches, step_lem,
  step_none,
}
use whoa.Object.Manager.Entry.Lookup.{heap_self, Touches-change_object, active_entry}

module _ (storm : Storm) (laws : StormLaws storm) where
  open laws use {members}

  fifo_lem :
      (id : ObjectTypeId) (fifo : ObjectList)
      → lazy_cleanup_fifo storm id ≡ some fifo
      → fifo ≡ ObjectList.lazy_cleanup id
  fifo_lem ObjectTypeId.object fifo e = absurd (none-ne-some fifo e)
  fifo_lem ObjectTypeId.item fifo e = sym (some-injective _ _ e)
  fifo_lem ObjectTypeId.container fifo e = sym (some-injective _ _ e)
  fifo_lem ObjectTypeId.unit fifo e = sym (some-injective _ _ e)
  fifo_lem ObjectTypeId.player fifo e = sym (some-injective _ _ e)
  fifo_lem ObjectTypeId.game_object fifo e = sym (some-injective _ _ e)
  fifo_lem ObjectTypeId.dynamic_object fifo e = sym (some-injective _ _ e)
  fifo_lem ObjectTypeId.corpse fifo e = sym (some-injective _ _ e)
  fifo_lem ObjectTypeId.num_client_object_types fifo e = absurd (none-ne-some fifo e)

  -- The first pass on an active object.
  pub pass1-entry :
      (now guid a k : ℕ) (m : ClntObjMgr storm)
      → IsValid storm laws m
      → storm.ptr guid m.objects ≡ some a
      → entry storm laws (handle_object_out_of_range_pass1 storm now a m).1 k
        ≡ (if k == guid then mapped (leaving now) (entry storm laws m k) else entry storm laws m k)
  unfolding handle_object_out_of_range_pass1
  pass1-entry now guid a k m valid e = elim (Bool-cases (is_object_locked (m.heap a))) [
    | inl locked ↦
        let f = set_disable_pending true in
        rw (handle_object_out_of_range_pass1, locked)
          (step_lem storm laws guid a (active a) (leaving now) m (change_object storm a f m) valid
            (valid.keyed guid a e) (Touches-change_object storm laws a f m)
            (λ j. unchanged storm laws guid j (active a) m (rw e refl))
            (rw (e, locked)
              (active_entry storm laws a (f (m.heap a)) m (change_object storm a f m)
                (heap_self storm laws a f m.heap) refl))
            k)
    | inr free ↦
        let f = λ (o : ClientObject). disable now (set_disable_pending false o) in
        rw (handle_object_out_of_range_pass1, free)
          (step_lem storm laws guid a (active a) (leaving now) m (change_object storm a f m) valid
            (valid.keyed guid a e) (Touches-change_object storm laws a f m)
            (λ j. unchanged storm laws guid j (active a) m (rw e refl))
            (rw (e, free)
              (active_entry storm laws a (f (m.heap a)) m (change_object storm a f m)
                (heap_self storm laws a f m.heap) refl))
            k)
  ]

  cleanup_links :
      (a b : ℕ) (fifo l : ObjectList) (m : ClntObjMgr storm)
      → elem b (members l (move_to_cleanup storm fifo a m).links)
        ≡ (if b == a then in_only fifo l else elem b (members l m.links))
  cleanup_links a b fifo l m =
      elem-link_to_tail storm laws fifo l a b (unlink_visible storm a m.links)
      ∙ elim (Bool-cases (b == a)) [
        | inl same ↦ rw same refl
        | inr other ↦ rw other (elem-unlink_visible storm laws l a b m.links other)
      ]

  Touches-move_to_cleanup :
      (a : ℕ) (fifo : ObjectList) (m : ClntObjMgr storm)
      → Touches storm laws a m (move_to_cleanup storm fifo a m)
  Touches-move_to_cleanup a fifo m = record {
    objects = λ b other. rw other refl;
    lists = λ l b other. cleanup_links a b fifo l m ∙ rw other refl;
  }

  cleaned_entry :
      (a : ℕ) (m : ClntObjMgr storm)
      → entry_of storm laws
          (disabled a)
          (move_to_cleanup storm (ObjectList.lazy_cleanup (m.heap a).type_id) a m)
        ≡ some (record {
          is_active = false;
          address = a;
          object = m.heap a;
          lists = in_only (ObjectList.lazy_cleanup (m.heap a).type_id);
        })
  cleaned_entry a m i = some (record {
    is_active = false;
    address = a;
    object = heap_self storm laws a (λ o. record o { key = (m.heap a).key }) m.heap i;
    lists = λ l. only l i;
  })
    where
      only :
          (l : ObjectList)
          → elem a (
              members l
                (move_to_cleanup storm (ObjectList.lazy_cleanup (m.heap a).type_id) a m).links)
            ≡ in_only (ObjectList.lazy_cleanup (m.heap a).type_id) l
      only l =
          let self : (a == a) ≡ true = ground arith in
          let here = cleanup_links a a (ObjectList.lazy_cleanup (m.heap a).type_id) l m in
          rw self at here

  -- The second pass on an active object that is not locked.
  pub move_to_cleanup-entry :
      (guid a k : ℕ) (fifo : ObjectList) (m : ClntObjMgr storm)
      → IsValid storm laws m
      → storm.ptr guid m.objects ≡ some a
      → is_object_locked (m.heap a) ≡ false
      → lazy_cleanup_fifo storm (m.heap a).type_id ≡ some fifo
      → entry storm laws (move_to_cleanup storm fifo a m) k
        ≡ (if k == guid then mapped left_behind (entry storm laws m k) else entry storm laws m k)
  move_to_cleanup-entry guid a k fifo m valid e free listed =
      let (valid', moved) = move_to_cleanup_lem storm laws guid a fifo m valid e in
      let named = fifo_lem (m.heap a).type_id fifo listed in
      step_lem storm laws guid a (disabled a) left_behind m (move_to_cleanup storm fifo a m) valid
        (valid.keyed guid a e) (Touches-move_to_cleanup a fifo m) moved
        (ap (λ l. entry_of storm laws (disabled a) (move_to_cleanup storm l a m)) named
          ∙ cleaned_entry a m
          ∙ rw (e, free) refl)
        k

  -- Without an active object of the GUID.
  pub inactive-entry :
      (guid k : ℕ) (f : Entry → Entry) (m : ClntObjMgr storm)
      → ((e : Entry) → e.is_active ≡ false → f e ≡ e)
      → storm.ptr guid m.objects ≡ none
      → entry storm laws m k
        ≡ (if k == guid then mapped f (entry storm laws m k) else entry storm laws m k)
  inactive-entry guid k f m same e =
      step_none storm laws guid k f m (elim (Option-cases (storm.ptr guid m.lazy_cleanup_objects)) [
        | inl e' ↦ rw (e, e') refl
        | inr (a, e') ↦ rw (e, e') (ap some (same _ refl))
      ])

  pub leaving_inactive : (now : ℕ) (e : Entry) → e.is_active ≡ false → leaving now e ≡ e
  leaving_inactive now e off = rw off refl

  pub left_inactive : (e : Entry) → e.is_active ≡ false → left_behind e ≡ e
  left_inactive e off = rw off refl

  -- Where the active object is locked.
  pub locked-entry :
      (guid a k : ℕ) (m : ClntObjMgr storm)
      → storm.ptr guid m.objects ≡ some a
      → is_object_locked (m.heap a) ≡ true
      → entry storm laws m k
        ≡ (if k == guid then mapped left_behind (entry storm laws m k) else entry storm laws m k)
  locked-entry guid a k m e locked = step_none storm laws guid k left_behind m (rw (e, locked) refl)

  -- With the two tables apart, their objects under their keys, and an active object of one of the types
  -- that have a list: destroying the object of a GUID stays in the arrays and keeps the tables so. An
  -- active object that is not locked is then disabled, at this time and no longer pending, and of the
  -- lists only in the one of its type; a locked one is to be disabled, with its other flags and its
  -- lists as they were, and a disabled one is as it was; and so is every other GUID's object, its flags
  -- and its lists.
  pub on_object_destroy-entry :
      (now guid : ℕ) (m : ClntObjMgr storm)
      → IsValid storm laws m
      → HasFifo storm laws m guid
      → (m' : ClntObjMgr storm) × (on_object_destroy storm now guid m ≡ some m')
        × IsValid storm laws m'
        × ((k : ℕ)
            → entry storm laws m' k ≡ (
                if k == guid
                then mapped (λ e. left_behind (leaving now e)) (entry storm laws m k)
                else entry storm laws m k))
  unfolding handle_object_out_of_range_pass1 on_object_destroy
  on_object_destroy-entry now guid m valid has = elim (Option-cases (storm.ptr guid m.objects)) [
    | inl e ↦ (
      m,
      rw (on_object_destroy, e) refl,
      valid,
      λ k.
          inactive-entry guid k (λ x. left_behind (leaving now x)) m
            (λ x off. ap left_behind (leaving_inactive now x off) ∙ left_inactive x off) e,
    )
    | inr (a, e) ↦ elim (Bool-cases (is_object_locked (m.heap a))) [
      | inl locked ↦
          let f = set_disable_pending true in
          let m1 = change_object storm a f m in
          let locked1 = ap is_object_locked (heap_self storm laws a f m.heap) ∙ locked in
          (
            m1,
            rw (on_object_destroy, e, locked) refl,
            change_object_key storm laws a f m (λ o. refl) valid,
            λ k.
                two_passes guid k m m1 m1 (rw locked at (pass1-entry now guid a k m valid e))
                  (locked-entry guid a k m1 e locked1),
          )
      | inr free ↦
          let f = λ (o : ClientObject). disable now (set_disable_pending false o) in
          let m1 = change_object storm a f m in
          let (fifo, listed) = has a e in
          let self = heap_self storm laws a f m.heap in
          let listed1 = ap (λ o. lazy_cleanup_fifo storm o.type_id) self ∙ listed in
          let valid1 = change_object_key storm laws a f m (λ o. refl) valid in
          let (valid', moved) = move_to_cleanup_lem storm laws guid a fifo m1 valid1 e in
          (
            move_to_cleanup storm fifo a m1,
            rw (on_object_destroy, e, free) (pass2_run storm laws a fifo m1 listed1),
            valid',
            λ k.
                two_passes guid k m m1 (move_to_cleanup storm fifo a m1)
                  (rw free at (pass1-entry now guid a k m valid e))
                  (move_to_cleanup-entry guid a k fifo m1 valid1 e (ap is_object_locked self ∙ free)
                    listed1),
          )
    ]
  ]
    where
      two_passes :
          (guid k : ℕ) (m m1 m2 : ClntObjMgr storm)
          → entry storm laws m1 k ≡ (
              if k == guid
              then mapped (leaving now) (entry storm laws m k)
              else entry storm laws m k)
          → entry storm laws m2 k ≡ (
              if k == guid
              then mapped left_behind (entry storm laws m1 k)
              else entry storm laws m1 k)
          → entry storm laws m2 k ≡ (
              if k == guid
              then mapped (λ e. left_behind (leaving now e)) (entry storm laws m k)
              else entry storm laws m k)
      two_passes guid k m m1 m2 one two =
          two
          ∙ ap (λ x. if k == guid then mapped left_behind x else x) one
          ∙ mapped-mapped (leaving now) left_behind (k == guid) (entry storm laws m k)
