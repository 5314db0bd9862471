-- ===== src/Object/Manager/Collect.antt =====
-- Freeing objects that were disabled long ago.
use whoa.Base.{
  ℕ, ◌+◌, ◌-◌, ◌%◌, ◌^◌, ◌≡◌, ◌==◌, ltb, refl, ap, ◌∙◌, sym, arith, inl, inr, if◌then◌else◌, Bool,
  true, Bool-cases, List, ◌∷◌, none, some,
}
use mathlib.Core.Option.{none-ne-some}
use whoa.Object.Types.{ObjectTypeId}
use whoa.Object.Manager.{Storm, ObjectList, remove, ClntObjMgr, lazy_cleanup_fifo, garbage_collect}
use whoa.Object.Manager.Tables.{StormLaws, Split-unlink, unlink_object_lem, first}
use whoa.Object.Manager.Status.{absent, status, status_of, IsValid, unchanged}

-- Whether an object was disabled too short ago, on a clock of 32 digits.
abbrev pub is_young : ℕ → ℕ → ℕ → Bool
is_young now disable_time collect_age_ms =
    ltb ((now + 2 ^ 32 - disable_time) % 2 ^ 32) collect_age_ms

remove_head : (a : ℕ) (l : List ℕ) → remove a (a ∷ l) ≡ remove a l
remove_head a l = let self : (a == a) ≡ true = ground arith in rw self refl

module _ (storm : Storm) (laws : StormLaws storm) where
  open laws use {members}

  abbrev freed : ℕ → ClntObjMgr storm → ClntObjMgr storm
  freed a m = record m {
    lazy_cleanup_objects = storm.unlink_object a m.lazy_cleanup_objects;
    links = storm.unlink a m.links;
  }

  -- With the two tables apart, and their objects under their keys, where the first object of a type's
  -- list of disabled ones is the disabled object of a GUID: it is freed exactly if it was disabled at
  -- least the collection age ago; then its GUID is unknown, and the list goes on with the next; the
  -- other GUIDs stay what they are, and the tables apart.
  pub garbage_collect_lem :
      (now collect_age_ms guid a : ℕ) (id : ObjectTypeId) (fifo : ObjectList) (rest : List ℕ)
      (m : ClntObjMgr storm)
      → IsValid storm laws m
      → lazy_cleanup_fifo storm id ≡ some fifo
      → members fifo m.links ≡ a ∷ rest
      → storm.ptr guid m.lazy_cleanup_objects ≡ some a
      → (m' : ClntObjMgr storm) × (garbage_collect storm now id collect_age_ms m
          ≡ some
              (if is_young now (m.heap a).disable_time_ms collect_age_ms then none else some a, m'))
        × IsValid storm laws m'
        × ((k : ℕ)
            → status storm laws m' k ≡ (
                if k == guid
                then if is_young now (m.heap a).disable_time_ms collect_age_ms
                  then status storm laws m guid
                  else absent
                else status storm laws m k))
        × (members fifo m'.links
            ≡ (if is_young now (m.heap a).disable_time_ms collect_age_ms then a ∷ rest else rest))
  unfolding garbage_collect
  garbage_collect_lem now collect_age_ms guid a id fifo rest m valid listed first_in e =
      let found = laws.head_lem fifo m.links ∙ ap first first_in in
      elim (Bool-cases (is_young now (m.heap a).disable_time_ms collect_age_ms)) [
        | inl young ↦ (
          m,
          rw (garbage_collect, listed, found, young) refl,
          valid,
          λ k. rw young (unchanged storm laws guid k (status storm laws m guid) m refl),
          rw young first_in,
        )
        | inr old ↦ (
          freed a m,
          rw (garbage_collect, listed, found, old) refl,
          Split-unlink storm laws m.objects m.lazy_cleanup_objects m.heap guid a valid e,
          λ k. rw old (gone k),
          rw old (
              laws.members-unlink fifo a m.links
              ∙ ap (remove a) first_in
              ∙ remove_head a rest
              ∙ laws.linked_once fifo a rest m.links first_in),
        )
      ]
    where
      inactive : storm.ptr guid m.objects ≡ none
      inactive = elim (valid.apart guid) [
        | inl none_there ↦ none_there
        | inr none_here ↦ absurd (none-ne-some a (sym none_here ∙ e))
      ]

      gone :
          (k : ℕ)
          → status storm laws (freed a m) k ≡ (if k == guid then absent else status storm laws m k)
      gone k =
          let out =
            unlink_object_lem storm laws m.lazy_cleanup_objects m.heap guid a k valid.keyed_other
              e in
          elim (Bool-cases (k == guid)) [
            | inl same ↦
                let here : k ≡ guid = ground (arith, same) in
                rw (out, same)
                  (ap (λ o. status_of o none) (ap (λ j. storm.ptr j m.objects) here ∙ inactive))
            | inr other ↦ rw (out, other) refl
          ]
