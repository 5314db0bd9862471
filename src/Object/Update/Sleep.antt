-- ===== src/Object/Update/Sleep.antt =====
-- What one GUID of a set of objects out of range does, in each of the two passes over the set.
use whoa.Base.{
  ℕ, ◌≡◌, ◌==◌, refl, ap, ◌∙◌, sym, arith, not, ◌&&◌, if◌then◌else◌, Bool, true, false, Bool-cases,
  inl, inr, Option, none, some, Option-cases,
}
use whoa.Object.ClientObject.{ClientObject, is_object_locked, disable, set_disable_pending}
use whoa.Object.Manager.{
  Storm, ObjectList, ClntObjMgr, on_heap, with_key, move_to_cleanup, lazy_cleanup_fifo,
  handle_object_out_of_range_pass1,
}
use whoa.Object.Manager.Tables.{StormLaws}
use whoa.Object.Manager.Status.{
  Status, absent, active, disabled, status_of, status, IsValid, change_object_key,
}
use whoa.Object.Manager.Destroy.{pass2_run, move_to_cleanup_lem}
use whoa.Object.Update.{out_of_range_pass1, out_of_range_pass2}
use whoa.Object.Update.InRange.{when}

-- An active object that is not locked is put to sleep.
abbrev pub asleep_unlocked : (ℕ → ClientObject) → Status → Status
asleep_unlocked heap absent = absent
asleep_unlocked heap (active a) = if is_object_locked (heap a) then active a else disabled a
asleep_unlocked heap (disabled a) = disabled a

asleep_inactive :
    (heap : ℕ → ClientObject) (o : Option ℕ)
    → asleep_unlocked heap (status_of none o) ≡ status_of none o
asleep_inactive heap none = refl
asleep_inactive heap (some a) = refl

pub asleep_twice :
    (heap : ℕ → ClientObject) (x : Status)
    → asleep_unlocked heap (asleep_unlocked heap x) ≡ asleep_unlocked heap x
asleep_twice heap absent = refl
asleep_twice heap (active a) = elim (Bool-cases (is_object_locked (heap a))) [
  | inl locked ↦ rw (locked, locked) refl
  | inr free ↦ rw free refl
]
asleep_twice heap (disabled a) = refl

-- The locks and types of all objects are the same.
pub record Steady (heap heap' : ℕ → ClientObject) : Type 0 where
  pub locks : (a : ℕ) → (heap' a).lock_count ≡ (heap a).lock_count
  pub types : (a : ℕ) → (heap' a).type_id ≡ (heap a).type_id

pub Steady-refl : (heap : ℕ → ClientObject) → Steady heap heap
Steady-refl heap = record { locks = λ a. refl; types = λ a. refl }

Steady-then : (h h' h'' : ℕ → ClientObject) → Steady h h' → Steady h' h'' → Steady h h''
Steady-then h h' h'' s t = record {
  locks = λ a. t.locks a ∙ s.locks a;
  types = λ a. t.types a ∙ s.types a;
}

asleep_Steady :
    (h h' : ℕ → ClientObject) (x : Status)
    → Steady h h'
    → asleep_unlocked h' x ≡ asleep_unlocked h x
asleep_Steady h h' absent s = refl
asleep_Steady h h' (active a) s =
    ap (λ n. if not (n == 0) then active a else disabled a) (s.locks a)
asleep_Steady h h' (disabled a) s = refl

module _ (storm : Storm) (laws : StormLaws storm) where
  Steady-on :
      (a : ℕ) (f : ClientObject → ClientObject) (heap : ℕ → ClientObject)
      → ((o : ClientObject) → (f o).lock_count ≡ o.lock_count)
      → ((o : ClientObject) → (f o).type_id ≡ o.type_id)
      → Steady heap (on_heap storm a f heap)
  Steady-on a f heap l t = record {
    locks = λ b. elim (Bool-cases (b == a)) [
      | inl same ↦ rw same (l (heap b))
      | inr other ↦ rw other refl
    ];
    types = λ b. elim (Bool-cases (b == a)) [
      | inl same ↦ rw same (t (heap b))
      | inr other ↦ rw other refl
    ];
  }

  -- Every object is of a type that has a list of disabled ones.
  abbrev pub AllListed : (ℕ → ClientObject) → Type 0
  AllListed heap =
      (a : ℕ) → (fifo : ObjectList) × (lazy_cleanup_fifo storm (heap a).type_id ≡ some fifo)

  pub AllListed_Steady : (h h' : ℕ → ClientObject) → Steady h h' → AllListed h → AllListed h'
  AllListed_Steady h h' s all a =
      let (fifo, listed) = all a in (fifo, ap (lazy_cleanup_fifo storm) (s.types a) ∙ listed)

  -- The first pass moves no object.
  pub record Kept (m m' : ClntObjMgr storm) : Type 0 where
    pub valid : IsValid storm laws m'
    pub player : m'.active_player ≡ m.active_player
    pub steady : Steady m.heap m'.heap

  pub pass1_lem :
      (now guid : ℕ) (m : ClntObjMgr storm)
      → IsValid storm laws m
      → Kept m (out_of_range_pass1 storm now guid m)
        × ((k : ℕ)
            → status storm laws (out_of_range_pass1 storm now guid m) k ≡ status storm laws m k)
  unfolding out_of_range_pass1 handle_object_out_of_range_pass1
  pass1_lem now guid m valid = elim (Bool-cases (guid == m.active_player)) [
    | inl mine ↦
        rw (out_of_range_pass1, mine)
          (record { valid = valid; player = refl; steady = Steady-refl m.heap }, λ k. refl)
    | inr other ↦ elim (Option-cases (storm.ptr guid m.objects)) [
      | inl e ↦
          rw (out_of_range_pass1, other, e)
            (record { valid = valid; player = refl; steady = Steady-refl m.heap }, λ k. refl)
      | inr (a, e) ↦ elim (Bool-cases (is_object_locked (m.heap a))) [
        | inl locked ↦
            let f = set_disable_pending true in
            rw (out_of_range_pass1, other, e, locked)
              (
                record {
                  valid = change_object_key storm laws a f m (λ o. refl) valid;
                  player = refl;
                  steady = Steady-on a f m.heap (λ o. refl) (λ o. refl);
                },
                λ k. refl,
              )
        | inr free ↦
            let f = λ (o : ClientObject). disable now (set_disable_pending false o) in
            rw (out_of_range_pass1, other, e, free)
              (
                record {
                  valid = change_object_key storm laws a f m (λ o. refl) valid;
                  player = refl;
                  steady = Steady-on a f m.heap (λ o. refl) (λ o. refl);
                },
                λ k. refl,
              )
      ]
    ]
  ]

  -- A GUID's change of the status in the second pass.
  abbrev pub sleeps : ClntObjMgr storm → Bool → ℕ → Status → Status
  sleeps m chosen k x = when (asleep_unlocked m.heap) (chosen && not (k == m.active_player)) x

  pub pass2_lem :
      (guid : ℕ) (m : ClntObjMgr storm)
      → IsValid storm laws m
      → AllListed m.heap
      → (m' : ClntObjMgr storm) × (out_of_range_pass2 storm guid m ≡ some m')
        × Kept m m'
        × ((k : ℕ) → status storm laws m' k ≡ sleeps m (k == guid) k (status storm laws m k))
  unfolding out_of_range_pass2
  pass2_lem guid m valid all = elim (Bool-cases (guid == m.active_player)) [
    | inl mine ↦ (m, rw (out_of_range_pass2, mine) refl, still, λ k. player_stays k mine)
    | inr other ↦ elim (Option-cases (storm.ptr guid m.objects)) [
      | inl e ↦ (
        m,
        rw (out_of_range_pass2, other, e) refl,
        still,
        λ k. stays k (rw e (asleep_inactive m.heap (storm.ptr guid m.lazy_cleanup_objects))),
      )
      | inr (a, e) ↦ elim (Bool-cases (is_object_locked (m.heap a))) [
        | inl locked ↦ (
          m,
          rw (out_of_range_pass2, other, e, locked) refl,
          still,
          λ k. stays k (rw (e, locked) refl),
        )
        | inr free ↦
            let (fifo, listed) = all a in
            let (valid', moved) = move_to_cleanup_lem storm laws guid a fifo m valid e in
            (
              move_to_cleanup storm fifo a m,
              rw (out_of_range_pass2, other, e, free) (pass2_run storm laws a fifo m listed),
              record {
                valid = valid';
                player = refl;
                steady = Steady-on a (with_key storm (m.heap a).key) m.heap (λ o. refl) (λ o. refl);
              },
              λ k. moved k ∙ moves k a other free (rw e refl),
            )
      ]
    ]
  ]
    where
      still : Kept m m
      still = record { valid = valid; player = refl; steady = Steady-refl m.heap }

      player_stays :
          (k : ℕ)
          → (guid == m.active_player) ≡ true
          → status storm laws m k ≡ sleeps m (k == guid) k (status storm laws m k)
      player_stays k player =
          let never : ((k == guid) && not (k == m.active_player)) ≡ false =
            ground (arith, player) in
          rw never refl

      stays :
          (k : ℕ)
          → asleep_unlocked m.heap (status storm laws m guid) ≡ status storm laws m guid
          → status storm laws m k ≡ sleeps m (k == guid) k (status storm laws m k)
      stays k same = elim (Bool-cases ((k == guid) && not (k == m.active_player))) [
        | inl chosen ↦
            let here : k ≡ guid = ground (arith, chosen) in
            rw chosen (
              ap (λ j. status storm laws m j) here
              ∙ sym same
              ∙ ap (λ j. asleep_unlocked m.heap (status storm laws m j)) (sym here))
        | inr not_chosen ↦ rw not_chosen refl
      ]

      moves :
          (k a : ℕ)
          → (guid == m.active_player) ≡ false
          → is_object_locked (m.heap a) ≡ false
          → status storm laws m guid ≡ active a
          → (if k == guid then disabled a else status storm laws m k)
            ≡ sleeps m (k == guid) k (status storm laws m k)
      moves k a other free awake = elim (Bool-cases (k == guid)) [
        | inl same ↦
            let here : k ≡ guid = ground (arith, same) in
            let outside : (k == m.active_player) ≡ false = ground (arith, same, other) in
            let at_k : status storm laws m k ≡ active a =
              ap (λ j. status storm laws m j) here ∙ awake in
            rw (same, outside) (sym (ap (asleep_unlocked m.heap) at_k ∙ rw free refl))
        | inr apart ↦ rw apart refl
      ]

  pub Kept-then : (m m' m'' : ClntObjMgr storm) → Kept m m' → Kept m' m'' → Kept m m''
  Kept-then m m' m'' a b = record {
    valid = b.valid;
    player = b.player ∙ a.player;
    steady = Steady-then m.heap m'.heap m''.heap a.steady b.steady;
  }

  pub sleeps-Kept :
      (m m' : ClntObjMgr storm)
      → Kept m m'
      → (chosen : Bool) (k : ℕ) (x : Status) → sleeps m' chosen k x ≡ sleeps m chosen k x
  sleeps-Kept m m' kept chosen k x =
      ap (λ p. when (asleep_unlocked m'.heap) (chosen && not (k == p)) x) kept.player
      ∙ ap (λ y. if chosen && not (k == m.active_player) then y else x)
          (asleep_Steady m.heap m'.heap x kept.steady)
