-- ===== src/Object/Manager/Status.antt =====
-- What the manager knows of each GUID, as one function, and what the operations make of it.
use whoa.Base.{
  ℕ, ◌≡◌, ◌==◌, refl, ap, ◌∙◌, arith, inl, inr, if◌then◌else◌, Bool, true, false, Bool-cases, List,
  [], ◌∷◌, ◌++◌, Option, none, some, Option-cases,
}
use whoa.Object.ClientObject.{ClientObject, set_disable_pending}
use whoa.Object.Manager.{
  with_key, Storm, ObjectList, remove, ClntObjMgr, change_object, on_heap, wake, get_update_object,
}
use whoa.Object.Manager.Tables.{
  StormLaws, Split, Split-swap, Split-heap, Split-move, insert_lem, unlink_object_lem,
}

pub data Status : Type 0 where
  absent : Status
  active : ℕ → Status
  disabled : ℕ → Status

abbrev pub status_of : Option ℕ → Option ℕ → Status
status_of (some a) other = active a
status_of none (some a) = disabled a
status_of none none = absent

-- An object is woken by an update, and put to sleep when it is destroyed.
abbrev pub woken : Status → Status
woken absent = absent
woken (active a) = active a
woken (disabled a) = active a

abbrev pub asleep : Status → Status
asleep absent = absent
asleep (active a) = disabled a
asleep (disabled a) = disabled a

abbrev pub address : Status → Option ℕ
address absent = none
address (active a) = some a
address (disabled a) = some a

abbrev pub is_disabled : Status → Bool
is_disabled (disabled a) = true
is_disabled other = false

-- The reenabled objects after a lookup.
abbrev pub reenabled_after : Status → List ℕ → List ℕ
reenabled_after (disabled a) l = remove a l ++ (a ∷ [])
reenabled_after other l = l

remove-remove : (a : ℕ) (l : List ℕ) → remove a (remove a l) ≡ remove a l
remove-remove a [] = refl
remove-remove a (b ∷ l) = elim (Bool-cases (b == a)) [
  | inl same ↦ rw same (remove-remove a l)
  | inr other ↦ rw (other, other) (ap (λ r. b ∷ r) (remove-remove a l))
]

module _ (storm : Storm) (laws : StormLaws storm) where
  open laws use {members}

  abbrev pub IsValid : ClntObjMgr storm → Type 0
  IsValid m = Split storm laws m.objects m.lazy_cleanup_objects m.heap

  abbrev pub status : ClntObjMgr storm → ℕ → Status
  status m k = status_of (storm.ptr k m.objects) (storm.ptr k m.lazy_cleanup_objects)

  pub change_object_key :
      (a : ℕ) (f : ClientObject → ClientObject) (m : ClntObjMgr storm)
      → ((o : ClientObject) → (f o).key ≡ o.key)
      → IsValid m
      → IsValid (change_object storm a f m)
  change_object_key a f m keeps valid =
      Split-heap storm laws m.objects m.lazy_cleanup_objects m.heap (on_heap storm a f m.heap)
        (λ b. same b) valid
    where
      same : (b : ℕ) → (on_heap storm a f m.heap b).key ≡ (m.heap b).key
      same b = elim (Bool-cases (b == a)) [
        | inl here ↦ rw here (keeps (m.heap b))
        | inr other ↦ rw other refl
      ]

  -- Waking a disabled object.
  pub wake_lem :
      (guid a : ℕ) (m : ClntObjMgr storm)
      → IsValid m
      → storm.ptr guid m.lazy_cleanup_objects ≡ some a
      → IsValid (wake storm guid a m).1
        × ((wake storm guid a m).0 ≡ true)
        × (members ObjectList.reenabled (wake storm guid a m).1.links
            ≡ remove a (members ObjectList.reenabled m.links) ++ (a ∷ []))
        × ((k : ℕ)
            → status (wake storm guid a m).1 k ≡ (if k == guid then active a else status m k))
  unfolding wake
  wake_lem guid a m valid e =
      let u = laws.unlinked ObjectList.visible a m.links in
      let v = laws.unlinked ObjectList.reenabled a m.links in
      (
        Split-swap storm laws _ _ _ (
            Split-move storm laws m.lazy_cleanup_objects m.objects m.heap guid a
              (Split-swap storm laws m.objects m.lazy_cleanup_objects m.heap valid) e),
        rw (u, v) refl,
        rw (u, v)
            (laws.members_tail ObjectList.reenabled a (storm.unlink a m.links)
              ∙ ap (λ l. remove a l ++ (a ∷ []))
                  (laws.members-unlink ObjectList.reenabled a m.links)
              ∙ ap (λ l. l ++ (a ∷ [])) (remove-remove a (members ObjectList.reenabled m.links))),
        λ k. moved k,
      )
    where
      other_way : Split storm laws m.lazy_cleanup_objects m.objects m.heap
      other_way = Split-swap storm laws m.objects m.lazy_cleanup_objects m.heap valid

      moved :
          (k : ℕ) → status (wake storm guid a m).1 k ≡ (if k == guid then active a else status m k)
      moved k =
          let here =
            insert_lem storm laws m.lazy_cleanup_objects m.objects m.heap guid a k other_way e in
          let gone =
            unlink_object_lem storm laws m.lazy_cleanup_objects m.heap guid a k valid.keyed_other
              e in
          elim (Bool-cases (k == guid)) [
            | inl same ↦ rw (here, gone, same) refl
            | inr other ↦ rw (here, gone, other) refl
          ]

  -- Nothing changes where the new status is the old one.
  pub unchanged :
      (guid k : ℕ) (new : Status) (m : ClntObjMgr storm)
      → status m guid ≡ new
      → status m k ≡ (if k == guid then new else status m k)
  unchanged guid k new m e = elim (Bool-cases (k == guid)) [
    | inl same ↦ let here : k ≡ guid = ground (arith, same) in rw same (ap (status m) here ∙ e)
    | inr other ↦ rw other refl
  ]

  -- With the two tables apart, and their objects under their keys, looking up an object for an update
  -- keeps them so. It returns the object of the GUID, if there is one, to be reenabled exactly if it
  -- is disabled; this one is then active, and the last of the reenabled. The other GUIDs' objects are
  -- in their tables.
  pub get_update_object_lem :
      (guid : ℕ) (m : ClntObjMgr storm)
      → IsValid m
      → IsValid (get_update_object storm guid m).1
        × ((get_update_object storm guid m).0
            ≡ (address (status m guid), is_disabled (status m guid)))
        × ((k : ℕ)
            → status (get_update_object storm guid m).1 k
              ≡ (if k == guid then woken (status m guid) else status m k))
        × (members ObjectList.reenabled (get_update_object storm guid m).1.links
            ≡ reenabled_after (status m guid) (members ObjectList.reenabled m.links))
  unfolding get_update_object
  get_update_object_lem guid m valid = elim (Option-cases (storm.ptr guid m.objects)) [
    | inr (a, e) ↦
        rw (get_update_object, e)
          (
            change_object_key a (set_disable_pending false) m (λ o. refl) valid,
            refl,
            λ k. unchanged guid k (active a) m (rw e refl),
            refl,
          )
    | inl e ↦ elim (Option-cases (storm.ptr guid m.lazy_cleanup_objects)) [
      | inr (a, e') ↦
          let (ok, again, tail, moved) = wake_lem guid a m valid e' in
          rw (get_update_object, e, e') (ok, ap (λ b. (some a, b)) again, moved, tail)
      | inl e' ↦
          rw (get_update_object, e, e')
            (valid, refl, λ k. unchanged guid k absent m (rw (e, e') refl), refl)
    ]
  ]

module _ (storm : Storm) where
  pub get_update_object_player :
      (guid : ℕ) (m : ClntObjMgr storm)
      → (get_update_object storm guid m).1.active_player ≡ m.active_player
  unfolding get_update_object wake
  get_update_object_player guid m = elim (Option-cases (storm.ptr guid m.objects)) [
    | inr (a, e) ↦ rw (get_update_object, e) refl
    | inl e ↦ elim (Option-cases (storm.ptr guid m.lazy_cleanup_objects)) [
      | inr (a, e') ↦ rw (get_update_object, e, e') refl
      | inl e' ↦ rw (get_update_object, e, e') refl
    ]
  ]

  pub get_update_object_storage :
      (guid a : ℕ) (m : ClntObjMgr storm)
      → ((get_update_object storm guid m).1.heap a).storage ≡ (m.heap a).storage
  unfolding get_update_object wake
  get_update_object_storage guid a m = elim (Option-cases (storm.ptr guid m.objects)) [
    | inr (b, e) ↦ rw (get_update_object, e) (kept b (set_disable_pending false) (λ o. refl))
    | inl e ↦ elim (Option-cases (storm.ptr guid m.lazy_cleanup_objects)) [
      | inr (b, e') ↦ rw (get_update_object, e, e') (kept b (with_key storm guid) (λ o. refl))
      | inl e' ↦ rw (get_update_object, e, e') refl
    ]
  ]
    where
      kept :
          (b : ℕ) (f : ClientObject → ClientObject)
          → ((o : ClientObject) → (f o).storage ≡ o.storage)
          → (on_heap storm b f m.heap a).storage ≡ (m.heap a).storage
      kept b f same = elim (Bool-cases (a == b)) [
        | inl here ↦ rw here (same (m.heap a))
        | inr other ↦ rw other refl
      ]
