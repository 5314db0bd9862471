-- ===== src/Object/Manager/Entry.antt =====
-- What the manager has under a GUID, with the object's own flags and the lists that it is in, and the
-- steps of src/object/client/Util.cpp and MessageHandlers.cpp on it.
pub mod Lookup
pub mod Leave
use whoa.Base.{
  ℕ, ◌≡◌, ◌==◌, refl, ap, ◌∙◌, sym, arith, not, ◌&&◌, if◌then◌else◌, Bool, true, false, Bool-cases,
  inl, inr, List, [], ◌∷◌, Option, none, some, Option-cases,
}
use whoa.Object.ClientObject.{ClientObject, is_object_locked}
use whoa.Object.Manager.{Storm, ObjectList, ClntObjMgr}
use whoa.Object.Manager.Lists.{elem, list_code}
use whoa.Object.Manager.Tables.{StormLaws}
use whoa.Object.Manager.Status.{Status, absent, active, disabled, status_of, status, IsValid}

-- An object that the manager has: in which table, at which address, with its flags and its lists.
pub record Entry : Type 0 where
  pub is_active : Bool
  pub address : ℕ
  pub object : ClientObject
  pub lists : ObjectList → Bool

abbrev pub in_only : ObjectList → ObjectList → Bool
in_only l l' = list_code l == list_code l'

abbrev pub mapped : (Entry → Entry) → Option Entry → Option Entry
mapped f none = none
mapped f (some e) = some (f e)

pub mapped-mapped :
    (f g : Entry → Entry) (b : Bool) (e : Option Entry)
    → (if b then mapped g (if b then mapped f e else e) else (if b then mapped f e else e))
      ≡ (if b then mapped (λ x. g (f x)) e else e)
mapped-mapped f g true none = refl
mapped-mapped f g true (some x) = refl
mapped-mapped f g false e = refl

-- After a lookup for an update.
abbrev pub looked_up : Entry → Entry
looked_up e =
    if e.is_active
    then record e { object = record e.object { disable_pending = false } }
    else record e { is_active = true; lists = in_only ObjectList.reenabled }

-- After a message that it is in range.
abbrev pub in_range : Entry → Entry
in_range e =
    if e.is_active
    then record e { object = record e.object { disable_pending = false } }
    else record e {
      is_active = true;
      object = record e.object { disabled = false; in_reenable = true };
      lists = in_only ObjectList.reenabled;
    }

-- After the first pass over the objects out of range, at a time of the world's clock.
abbrev pub leaving : ℕ → Entry → Entry
leaving now e =
    if not e.is_active
    then e
    else if is_object_locked e.object
    then record e { object = record e.object { disable_pending = true } }
    else record e {
      object = record e.object { disable_pending = false; disabled = true; disable_time_ms = now };
    }

-- After the second pass.
abbrev pub left_behind : Entry → Entry
left_behind e =
    if e.is_active && not (is_object_locked e.object)
    then record e { is_active = false; lists = in_only (ObjectList.lazy_cleanup e.object.type_id) }
    else e

-- A change for each GUID of a list that is this one, unless it is the active player's.
abbrev pub in_turn : (Entry → Entry) → ℕ → ℕ → List ℕ → Option Entry → Option Entry
in_turn f player k [] e = e
in_turn f player k (g ∷ gs) e =
    in_turn f player k gs (if (k == g) && not (k == player) then mapped f e else e)

module _ (storm : Storm) (laws : StormLaws storm) where
  open laws use {members}

  abbrev pub entry_of : Status → ClntObjMgr storm → Option Entry
  entry_of absent m = none
  entry_of (active a) m = some (record {
    is_active = true;
    address = a;
    object = m.heap a;
    lists = λ l. elem a (members l m.links);
  })
  entry_of (disabled a) m = some (record {
    is_active = false;
    address = a;
    object = m.heap a;
    lists = λ l. elem a (members l m.links);
  })

  abbrev pub entry : ClntObjMgr storm → ℕ → Option Entry
  entry m k = entry_of (status storm laws m k) m

  -- Objects at other addresses have their flags and lists.
  pub record Touches (a : ℕ) (m m' : ClntObjMgr storm) : Type 0 where
    pub objects : (b : ℕ) → (b == a) ≡ false → m'.heap b ≡ m.heap b
    pub lists :
        (l : ObjectList) (b : ℕ)
        → (b == a) ≡ false
        → elem b (members l m'.links) ≡ elem b (members l m.links)

  entry_of-Touches :
      (a b : ℕ) (m m' : ClntObjMgr storm)
      → Touches a m m'
      → (b == a) ≡ false
      → (entry_of (active b) m' ≡ entry_of (active b) m)
        × (entry_of (disabled b) m' ≡ entry_of (disabled b) m)
  entry_of-Touches a b m m' t other = (
    λ i. some (record {
      is_active = true;
      address = b;
      object = t.objects b other i;
      lists = λ l. t.lists l b other i;
    }),
    λ i. some (record {
      is_active = false;
      address = b;
      object = t.objects b other i;
      lists = λ l. t.lists l b other i;
    }),
  )

  -- A step on the object of another GUID.
  entry-Touches :
      (guid a k : ℕ) (m m' : ClntObjMgr storm)
      → IsValid storm laws m
      → (m.heap a).key ≡ guid
      → Touches a m m'
      → (k == guid) ≡ false
      → entry_of (status storm laws m k) m' ≡ entry m k
  entry-Touches guid a k m m' valid key t other = elim (Option-cases (storm.ptr k m.objects)) [
    | inr (b, e) ↦ rw e ((entry_of-Touches a b m m' t (elsewhere b (valid.keyed k b e))).0)
    | inl e ↦ elim (Option-cases (storm.ptr k m.lazy_cleanup_objects)) [
      | inr (b, e') ↦
          rw (e, e') ((entry_of-Touches a b m m' t (elsewhere b (valid.keyed_other k b e'))).1)
      | inl e' ↦ rw (e, e') refl
    ]
  ]
    where
      elsewhere : (b : ℕ) → (m.heap b).key ≡ k → (b == a) ≡ false
      elsewhere b at = elim (Bool-cases (b == a)) [
        | inl same ↦
            let here : b ≡ a = ground (arith, same) in
            let keys : (m.heap b).key ≡ (m.heap a).key = ap (λ c. (m.heap c).key) here in
            absurd (ground (arith, other, at, key, keys))
        | inr apart ↦ apart
      ]

  -- A step changes the entry of its GUID, and no other.
  pub step_lem :
      (guid a : ℕ) (new : Status) (f : Entry → Entry) (m m' : ClntObjMgr storm)
      → IsValid storm laws m
      → (m.heap a).key ≡ guid
      → Touches a m m'
      → ((k : ℕ) → status storm laws m' k ≡ (if k == guid then new else status storm laws m k))
      → entry_of new m' ≡ mapped f (entry m guid)
      → (k : ℕ) → entry m' k ≡ (if k == guid then mapped f (entry m k) else entry m k)
  step_lem guid a new f m m' valid key t moved at k = elim (Bool-cases (k == guid)) [
    | inl same ↦
        let here : guid ≡ k = ground (arith, same) in
        ap (λ s. entry_of s m') (moved k) ∙ rw same (at ∙ ap (λ j. mapped f (entry m j)) here)
    | inr other ↦
        ap (λ s. entry_of s m') (moved k) ∙ rw other (entry-Touches guid a k m m' valid key t other)
  ]

  -- Where the step does nothing.
  pub step_none :
      (guid k : ℕ) (f : Entry → Entry) (m : ClntObjMgr storm)
      → mapped f (entry m guid) ≡ entry m guid
      → entry m k ≡ (if k == guid then mapped f (entry m k) else entry m k)
  step_none guid k f m e = elim (Bool-cases (k == guid)) [
    | inl same ↦
        let here : guid ≡ k = ground (arith, same) in
        rw same (sym (ap (λ j. mapped f (entry m j)) (sym here) ∙ e ∙ ap (entry m) here))
    | inr other ↦ rw other refl
  ]

  -- Two changes that agree on the entry of a GUID.
  pub same_change :
      (guid k : ℕ) (f g : Entry → Entry) (m : ClntObjMgr storm)
      → mapped f (entry m guid) ≡ mapped g (entry m guid)
      → (if k == guid then mapped f (entry m k) else entry m k)
        ≡ (if k == guid then mapped g (entry m k) else entry m k)
  same_change guid k f g m e = elim (Bool-cases (k == guid)) [
    | inl same ↦
        let here : k ≡ guid = ground (arith, same) in
        rw same
          (ap (λ j. mapped f (entry m j)) here ∙ e ∙ ap (λ j. mapped g (entry m j)) (sym here))
    | inr other ↦ rw other refl
  ]
