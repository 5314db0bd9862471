-- ===== src/Object/Storage/New/Room.antt =====
-- A new object has room for all the fields that a message can write.
use whoa.Base.{
  ℕ, ◌≤◌, ◌≡◌, ◌≢◌, ◌==◌, ap, ◌∙◌, sym, arith, true, false, List, length, length-set, replicate,
  get_or, get_or-set_self, some,
}
use whoa.Object.DataStore.{DataStore}
use whoa.Object.Types.{ObjectTypeId, hier_type}
use whoa.Object.Fields.{Fields}
use whoa.Object.ClientObject.{ClientObject, get_type, set_type_id}
use whoa.Object.Mirror.{extract_dirty_masks, get_num_dword_blocks}
use whoa.Object.Mirror.Masks.{words, count_changes, length-replicate, get_or-replicate}
use whoa.Object.Mirror.Fill.{FilledTo, field_after}
use whoa.Object.Mirror.Passes.{fill_in_partial_object_data_lem}
use whoa.Object.Storage.{fields_of}
use whoa.Object.Storage.Fits.{fields_lem}
use whoa.Object.Storage.New.{zeroed_object, fill_new_object}

abbrev pub typed : ObjectTypeId → ℕ → Fields → ClientObject
typed id guid f = set_type_id id (zeroed_object guid f)

typed-type :
    (id : ObjectTypeId) (guid : ℕ) (f : Fields)
    → 6 ≤ f.total_fields
    → get_type (typed id guid f) ≡ hier_type id 0
typed-type id guid f h =
    get_or-set_self (replicate f.total_fields 0) 2 (hier_type id (get_type (zeroed_object guid f)))
      0 (omega (arith, h, length-replicate f.total_fields 0))
    ∙ ap (hier_type id) (get_or-replicate f.total_fields 2)

module _ (d : DataStore) where
  -- For every id of a type, a message with masks that writes no other type is filled into the zeroed
  -- storage of a new object without leaving it: the object has exactly the fields that the mirror goes
  -- through, each is the number that the message has for it or what it was, and the message is read
  -- over these numbers.
  pub fill_new_object_lem :
      (active guid : ℕ) (id : ObjectTypeId) (s : d.Store) (m : ℕ × List ℕ)
      → id ≢ ObjectTypeId.num_client_object_types
      → (extract_dirty_masks d s).0 ≡ some m
      → ((fields : List ℕ)
          → get_or fields 2 0 ≡ hier_type id 0
          → field_after d m.1 (extract_dirty_masks d s).1 false fields 2 ≡ hier_type id 0)
      → (f : Fields) × (o' : ClientObject) × (fields_of (guid == active) id ≡ some f)
        × (length o'.storage ≡ get_num_dword_blocks active (hier_type id 0) guid)
        × (fill_new_object d active id guid s
            ≡ some
                (true, o', words d (count_changes m.1 f.total_fields) (extract_dirty_masks d s).1))
        × FilledTo d m.1 (extract_dirty_masks d s).1 false f.total_fields (typed id guid f) o'
  unfolding fill_new_object
  fill_new_object_lem active guid id s m real e keeps =
      let (f, (own, blocks, ge, le, le_saved)) = fields_lem id guid active real in
      let o = typed id guid f in
      let type_at : get_type o ≡ hier_type id 0 = typed-type id guid f ge in
      let size : length o.storage ≡ f.total_fields =
        length-set (replicate f.total_fields 0) 2 (hier_type id (get_type (zeroed_object guid f)))
        ∙ length-replicate f.total_fields 0 in
      let same_blocks : get_num_dword_blocks active (get_type o) guid ≡ f.total_fields =
        ap (λ ty. get_num_dword_blocks active ty guid) type_at ∙ blocks in
      let (o', filled, to) =
        fill_in_partial_object_data_lem d s m active guid o false e
          (omega (arith, same_blocks, size)) (keeps o.storage type_at ∙ sym type_at) in
      let to_all = rw same_blocks at to in
      (
        f,
        o',
        own,
        to.same_size ∙ size ∙ sym blocks,
        rw (fill_new_object, own)
            (filled
              ∙ ap (λ n. some (true, o', words d (count_changes m.1 n) (extract_dirty_masks d s).1))
                  same_blocks),
        to_all,
      )
