-- ===== src/Object/Update/Tests.antt =====
-- The manager on two objects: an active one, of the GUID 7, and a disabled one, of the GUID 8.
use whoa.Base.{
  replicate, ℕ, ◌≡◌, ◌==◌, refl, ap, ◌∙◌, sym, arith, inl, inr, if◌then◌else◌, true, false,
  Bool-cases, [], ◌∷◌, none, some,
}
use mathlib.Core.Option.{some-injective, none-ne-some}
use whoa.Object.Tests.{Memory, memory}
use whoa.Object.Types.{ObjectTypeId}
use whoa.Object.ClientObject.{ClientObject}
use whoa.Object.Manager.{
  ObjectList, ClntObjMgr, get_update_object, on_object_destroy, garbage_collect,
}
use whoa.Object.Manager.Status.{absent, active, status, IsValid}
use whoa.Object.Manager.Destroy.{get_update_object-on_object_destroy}
use whoa.Object.Guid.{get_guid, guid_bytes, guid_byte}
use whoa.Object.Mirror.{extract_dirty_masks, get_masks}
use whoa.Object.Update.Partial.{call_mirror_handlers-update_object}
use whoa.Object.Manager.Collect.{garbage_collect_lem}
use whoa.Object.Manager.Tests.{storage, storage_laws}
use whoa.Object.Update.{
  update_object, call_mirror_handlers, skip_guids, skip_set_of_objects, update_in_range_objects,
  update_out_of_range_objects, finish_reenabling,
}
use whoa.Object.Update.InRange.{guids_of}
use whoa.Object.Manager.Entry.{entry, mapped, looked_up, in_range, leaving, left_behind, in_turn}
use whoa.Object.Manager.Entry.Lookup.{get_update_object-entry}
use whoa.Object.Manager.Entry.Leave.{on_object_destroy-entry}
use whoa.Object.Update.Came.{update_in_range_objects-entry}
use whoa.Object.Update.Sleep.{AllListed}
use whoa.Object.Update.Went.{again, update_out_of_range_objects-entry}
use whoa.Object.Update.Reenable.{Reenabled, finish_reenabling_lem}

abbrev item_at : ℕ → ClientObject
item_at a = record {
  key = if a == 100 then 7 else 8;
  storage = [];
  type_id = ObjectTypeId.item;
  disable_time_ms = 0;
  lock_count = 0;
  disabled = false;
  in_reenable = false;
  post_inited = true;
  disable_pending = false;
}

abbrev two_objects : ClntObjMgr storage
two_objects = record {
  objects = λ k. if k == 7 then some 100 else none;
  lazy_cleanup_objects = λ k. if k == 8 then some 200 else none;
  links = (2, 300) ∷ (4, 200) ∷ (1, 100) ∷ [];
  active_player = 1;
  heap = item_at;
}

-- A table of one object.
keyed_once :
    (j c k a : ℕ)
    → (item_at c).key ≡ j
    → (if k == j then some c else none) ≡ some a
    → (item_at a).key ≡ k
keyed_once j c k a own e = elim (Bool-cases (k == j)) [
  | inl same ↦
      let here : k ≡ j = ground (arith, same) in
      let at : c ≡ a = some-injective c a (rw same at e) in
      ap (λ b. (item_at b).key) (sym at) ∙ own ∙ sym here
  | inr other ↦ absurd (none-ne-some a (rw other at e))
]

abbrev two_objects-IsValid : IsValid storage storage_laws two_objects
two_objects-IsValid = record {
  apart = λ k. elim (Bool-cases (k == 7)) [
    | inl same ↦ let other : (k == 8) ≡ false = ground (arith, same) in inr (rw other refl)
    | inr other ↦ inl (rw other refl)
  ];
  keyed = λ k a e. keyed_once 7 100 k a refl e;
  keyed_other = λ k a e. keyed_once 8 200 k a refl e;
}

get_update_object-entry_example :
    IsValid storage storage_laws (get_update_object storage 8 two_objects).1
    × ((get_update_object storage 8 two_objects).0 ≡ (some 200, true))
    × ((k : ℕ)
        → entry storage storage_laws (get_update_object storage 8 two_objects).1 k ≡ (
            if k == 8
            then mapped looked_up (entry storage storage_laws two_objects k)
            else entry storage storage_laws two_objects k))
    × (storage_laws.members ObjectList.reenabled (get_update_object storage 8 two_objects).1.links
        ≡ 300 ∷ 200 ∷ [])
get_update_object-entry_example =
    get_update_object-entry storage storage_laws 8 two_objects two_objects-IsValid

abbrev listed : AllListed storage storage_laws item_at
listed a = (ObjectList.lazy_cleanup ObjectTypeId.item, refl)

get_update_object-on_object_destroy_example :
    (m' : ClntObjMgr storage) × (on_object_destroy storage 50 7 two_objects ≡ some m')
    × ((get_update_object storage 7 m').0 ≡ (some 100, true))
    × ((k : ℕ)
        → status storage storage_laws (get_update_object storage 7 m').1 k
          ≡ status storage storage_laws two_objects k)
get_update_object-on_object_destroy_example =
    get_update_object-on_object_destroy storage storage_laws 50 7 100 two_objects
      two_objects-IsValid (λ a e. listed a) refl refl

on_object_destroy-entry_example :
    (m' : ClntObjMgr storage) × (on_object_destroy storage 50 7 two_objects ≡ some m')
    × IsValid storage storage_laws m'
    × ((k : ℕ)
        → entry storage storage_laws m' k ≡ (
            if k == 7
            then mapped (λ e. left_behind (leaving 50 e)) (entry storage storage_laws two_objects k)
            else entry storage storage_laws two_objects k))
on_object_destroy-entry_example =
    on_object_destroy-entry storage storage_laws 50 7 two_objects two_objects-IsValid
      (λ a e. listed a)

finish_reenabling_lem_example :
    (m' : ClntObjMgr storage) × (finish_reenabling storage 2 two_objects ≡ some m')
    × Reenabled storage storage_laws two_objects m'
finish_reenabling_lem_example =
    finish_reenabling_lem storage storage_laws 2 two_objects (omega arith)

-- A set of the GUIDs 7 and 8.
abbrev a_set : Memory
a_set = (2 ∷ 0 ∷ 0 ∷ 0 ∷ 1 ∷ 7 ∷ 1 ∷ 8 ∷ [], 0)

update_in_range_objects-entry_example :
    IsValid storage storage_laws (update_in_range_objects memory storage two_objects a_set).0
    × ((update_in_range_objects memory storage two_objects a_set).1
        ≡ skip_set_of_objects memory a_set)
    × ((k : ℕ)
        → entry storage storage_laws (update_in_range_objects memory storage two_objects a_set).0 k
          ≡ in_turn in_range 1 k
              (guids_of memory 2 (a_set.0, 4))
              (entry storage storage_laws two_objects k))
update_in_range_objects-entry_example =
    update_in_range_objects-entry storage storage_laws memory two_objects a_set two_objects-IsValid

update_out_of_range_objects-entry_example :
    (m' : ClntObjMgr storage) × (update_out_of_range_objects memory storage 50 two_objects a_set
      ≡ some (m', skip_guids memory 2 (again memory a_set)))
    × IsValid storage storage_laws m'
    × ((k : ℕ)
        → entry storage storage_laws m' k
          ≡ in_turn left_behind 1 k (guids_of memory 2 (again memory a_set)) (
              in_turn
                (leaving 50)
                1
                k
                (guids_of memory 2 (a_set.0, 4))
                (entry storage storage_laws two_objects k)))
update_out_of_range_objects-entry_example =
    update_out_of_range_objects-entry storage storage_laws memory 50 two_objects a_set
      two_objects-IsValid listed

garbage_collect_lem_example :
    (m' : ClntObjMgr storage) × (garbage_collect storage 130000 ObjectTypeId.item 120000 two_objects
      ≡ some (some 200, m'))
    × IsValid storage storage_laws m'
    × ((k : ℕ)
        → status storage storage_laws m' k
          ≡ (if k == 8 then absent else status storage storage_laws two_objects k))
    × (storage_laws.members (ObjectList.lazy_cleanup ObjectTypeId.item) m'.links ≡ [])
garbage_collect_lem_example =
    garbage_collect_lem storage storage_laws 130000 120000 8 200 ObjectTypeId.item
      (ObjectList.lazy_cleanup ObjectTypeId.item) [] two_objects two_objects-IsValid refl refl refl

-- An object of the GUID 7 and of no class of its own, the only one.
abbrev plain_at : ℕ → ClientObject
plain_at a = record (item_at 100) {
  storage = 7 ∷ 0 ∷ 1 ∷ 40 ∷ 50 ∷ 60 ∷ [];
  type_id = ObjectTypeId.object;
}

abbrev one_object : ClntObjMgr storage
one_object = record two_objects { lazy_cleanup_objects = λ k. none; heap = plain_at }

plain_key : (k a : ℕ) → (if k == 7 then some 100 else none) ≡ some a → (plain_at a).key ≡ k
plain_key k a e = elim (Bool-cases (k == 7)) [
  | inl same ↦ ground (arith, same)
  | inr other ↦ absurd (none-ne-some a (rw other at e))
]

abbrev one_object-IsValid : IsValid storage storage_laws one_object
one_object-IsValid = record {
  apart = λ k. inr refl;
  keyed = λ k a e. plain_key k a e;
  keyed_other = λ k a e. absurd (none-ne-some a e);
}

-- The GUID 7, one mask, for the fields 3 and 5, and their numbers.
abbrev a_change : Memory
a_change = (1 ∷ 7 ∷ 1 ∷ 0x28 ∷ 0 ∷ 0 ∷ 0 ∷ 8 ∷ 0 ∷ 0 ∷ 0 ∷ 9 ∷ 0 ∷ 0 ∷ 0 ∷ [], 0)

call_mirror_handlers-update_object_example :
    (m' : ClntObjMgr storage) × (t : Memory) × (update_object memory storage one_object a_change
      ≡ some ((true, m'), t))
    × (call_mirror_handlers memory storage m' a_change ≡ some (true, t))
    × (status storage storage_laws m' 7 ≡ active 100)
unfolding extract_dirty_masks get_masks get_guid guid_bytes guid_byte
call_mirror_handlers-update_object_example =
    call_mirror_handlers-update_object memory storage storage_laws one_object a_change 100
      (1, 0x28 ∷ replicate 41 0) one_object-IsValid refl refl refl (omega arith) refl
