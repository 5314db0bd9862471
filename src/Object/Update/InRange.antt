-- ===== src/Object/Update/InRange.antt =====
-- What one GUID of a set of objects in range does to the status.
use whoa.Base.{
  ℕ, zero, suc, ◌≡◌, ◌==◌, refl, ap, ◌∙◌, arith, not, ◌&&◌, ◌||◌, if◌then◌else◌, Bool, true, false,
  Bool-cases, inl, inr, List, [], ◌∷◌, Option, none, some,
}
use whoa.Object.DataStore.{DataStore}
use whoa.Object.Guid.{get_guid}
use whoa.Object.ClientObject.{reenable}
use whoa.Object.Manager.{Storm, ClntObjMgr, get_update_object}
use whoa.Object.Manager.Tables.{StormLaws}
use whoa.Object.Manager.Status.{
  Status, absent, active, disabled, status, woken, IsValid, change_object_key,
  get_update_object_lem, get_update_object_player,
}
use whoa.Object.Update.{reenable_found, update_in_range}

-- The GUIDs of a set in a message.
abbrev pub guids_of : (d : DataStore) → ℕ → d.Store → List ℕ
guids_of d zero s = []
guids_of d (suc n) s = (get_guid d s).0 ∷ guids_of d n (get_guid d s).1

-- A change of the objects under a test, one after another.
abbrev pub when : (Status → Status) → Bool → Status → Status
when f b x = if b then f x else x

pub when-when :
    (f : Status → Status)
    → ((x : Status) → f (f x) ≡ f x)
    → (b c p : Bool) (x : Status) → when f (c && p) (when f (b && p) x) ≡ when f ((b || c) && p) x
when-when f idem true true true x = idem x
when-when f idem true true false x = refl
when-when f idem true false true x = refl
when-when f idem true false false x = refl
when-when f idem false true true x = refl
when-when f idem false true false x = refl
when-when f idem false false true x = refl
when-when f idem false false false x = refl

woken-woken : (x : Status) → woken (woken x) ≡ woken x
woken-woken absent = refl
woken-woken (active a) = refl
woken-woken (disabled a) = refl

module _ (storm : Storm) (laws : StormLaws storm) where
  reenable_found_lem :
      (r : (Option ℕ × Bool) × ClntObjMgr storm)
      → IsValid storm laws r.1
      → IsValid storm laws (reenable_found storm r)
        × ((reenable_found storm r).active_player ≡ r.1.active_player)
        × ((k : ℕ) → status storm laws (reenable_found storm r) k ≡ status storm laws r.1 k)
  reenable_found_lem ((none, again), m) valid = (valid, refl, λ k. refl)
  reenable_found_lem ((some a, true), m) valid =
      (change_object_key storm laws a reenable m (λ o. refl) valid, refl, λ k. refl)
  reenable_found_lem ((some a, false), m) valid = (valid, refl, λ k. refl)

  pub update_in_range_lem :
      (guid : ℕ) (m : ClntObjMgr storm)
      → IsValid storm laws m
      → IsValid storm laws (update_in_range storm guid m)
        × ((update_in_range storm guid m).active_player ≡ m.active_player)
        × ((k : ℕ)
            → status storm laws (update_in_range storm guid m) k
              ≡ when woken ((k == guid) && not (k == m.active_player)) (status storm laws m k))
  unfolding update_in_range
  update_in_range_lem guid m valid = elim (Bool-cases (guid == m.active_player)) [
    | inl player ↦ rw (update_in_range, player) (valid, refl, λ k. at_player k player)
    | inr other ↦
        let (valid1, found, moved, tail) = get_update_object_lem storm laws guid m valid in
        let (valid2, same, kept) = reenable_found_lem (get_update_object storm guid m) valid1 in
        rw (update_in_range, other)
          (
            valid2,
            same ∙ get_update_object_player storm guid m,
            λ k. kept k ∙ moved k ∙ at_other k other,
          )
  ]
    where
      at_player :
          (k : ℕ)
          → (guid == m.active_player) ≡ true
          → status storm laws m k
            ≡ when woken ((k == guid) && not (k == m.active_player)) (status storm laws m k)
      at_player k player =
          let never : ((k == guid) && not (k == m.active_player)) ≡ false =
            ground (arith, player) in
          rw never refl

      at_other :
          (k : ℕ)
          → (guid == m.active_player) ≡ false
          → (if k == guid then woken (status storm laws m guid) else status storm laws m k)
            ≡ when woken ((k == guid) && not (k == m.active_player)) (status storm laws m k)
      at_other k other = elim (Bool-cases (k == guid)) [
        | inl same ↦
            let here : guid ≡ k = ground (arith, same) in
            let outside : (k == m.active_player) ≡ false = ground (arith, same, other) in
            rw (same, outside) (ap (λ j. woken (status storm laws m j)) here)
        | inr apart ↦ rw apart refl
      ]
