-- ===== src/Event/Queue/SyncKeys/Updates.antt =====
-- The keys and buttons after an event.
use whoa.Base.{
  ℕ, ◌<◌, ◌≡◌, refl, ap, ◌∙◌, arith, ◌==◌, not, ◌&&◌, ◌||◌, Bool, true, false, [], ◌∷◌, ◌++◌, none,
  some, length, length-append, Bool-cases, inl, inr,
}
use whoa.Base.Removal.{remove-Avoids}
use whoa.Event.Queue.{
  ExplicitList, ListLaws, Priority, EvtContext, put_at, event_id_focus, event_id_keydown,
  event_id_keyup, event_id_mousedown, event_id_mouseup, new_key, update_sync_key_state,
  reset_sync_state, update_sync_mouse_state, update_sync_state,
}
use whoa.Event.Queue.SyncKeys.{has_key, is_down, down_after, id_after, list_size, Synced}
use whoa.Event.Queue.SyncKeys.Delete.{
  other_keys-has_key, has_key-append, other_keys-length, has_key-put_at, delete_keys_lem,
}

module _ (s : ExplicitList) (laws : ListLaws s) (order : Priority) (World : Type 0) where
  open laws use {items}

  has_key-last :
      (keys : ℕ → ℕ) (n key k : ℕ)
      → has_key (put_at s order World n key keys) (n ∷ []) k ≡ (key == k)
  has_key-last keys n key k = ground arith

  pressed_down :
      (id key k : ℕ) (down : ℕ → Bool) {p q : Bool}
      → p ≡ (not (k == key) && down k)
      → q ≡ (key == k)
      → (id == event_id_keydown) ≡ true
      → (p || q) ≡ down_after s laws order World id key down k
  pressed_down id key k down e f h = ground arith

  released_down :
      (id key k : ℕ) (down : ℕ → Bool)
      → (id == event_id_keydown || id == event_id_keyup) ≡ true
      → (id == event_id_keydown) ≡ false
      → (not (k == key) && down k) ≡ down_after s laws order World id key down k
  released_down id key k down h k' = ground arith

  focus_down :
      (id key k : ℕ) (down : ℕ → Bool)
      → (id == event_id_focus) ≡ true
      → false ≡ down_after s laws order World id key down k
  focus_down id key k down h = ground arith

  kept_id :
      (id key : ℕ) (down : ℕ → Bool)
      → (id == event_id_keydown || id == event_id_keyup) ≡ false
      → id ≡ id_after s laws order World id key down
  kept_id id key down h = ground arith

  kept_down :
      (id key k : ℕ) (down : ℕ → Bool)
      → (id == event_id_focus) ≡ false
      → (id == event_id_keydown || id == event_id_keyup) ≡ false
      → down k ≡ down_after s laws order World id key down k
  kept_down id key k down h n = ground arith

  update_sync_key_state-Synced :
      (rounds : ℕ) (c : EvtContext s order World) (key id : ℕ)
      → (id == event_id_keydown || id == event_id_keyup) ≡ true
      → list_size s laws order World c < rounds
      → (c' : EvtContext s order World) × (update_sync_key_state s order World rounds c key id
          ≡ some (id_after s laws order World id key (is_down s laws order World c), c'))
        × Synced s laws order World c c' id key
  unfolding update_sync_key_state new_key
  update_sync_key_state-Synced rounds c key id known h =
      let l = c.queue_sync_key_down_list in
      let (l', done, rest) =
        delete_keys_lem s laws order World rounds c.keys key false l [] (items l) refl h in
      let start = laws.head_lem l in
      let shorter = other_keys-length c.keys key (items l) in
      let left : (k : ℕ)
          → has_key c.keys (items l') k ≡ (not (k == key) && is_down s laws order World c k) =
        λ k. ap (λ t. has_key c.keys t k) rest ∙ other_keys-has_key c.keys key k (items l) in
      elim (Bool-cases (id == event_id_keydown)) [
        | inl pressed ↦
            let n = s.fresh l' in
            let away = laws.fresh_lem l' in
            let added : items (s.link_before n none l') ≡ items l' ++ (n ∷ []) =
              laws.before_tail n l' ∙ ap (λ t. t ++ (n ∷ [])) (remove-Avoids n (items l') away) in
            (
              new_key s order World c key l',
              rw (start, update_sync_key_state, done, pressed) refl,
              record {
                down = λ k.
                    let keys' = put_at s order World n key c.keys in
                    let whole : has_key keys' (items (s.link_before n none l')) k
                        ≡ (has_key keys' (items l') k || has_key keys' (n ∷ []) k) =
                      ap (λ t. has_key keys' t k) added
                      ∙ has_key-append keys' k (items l') (n ∷ []) in
                    whole
                    ∙ pressed_down id key k (is_down s laws order World c)
                        (has_key-put_at s laws order World c.keys n key k (items l') away ∙ left k)
                        (has_key-last c.keys n key k) pressed;
                buttons = ground arith;
                size = omega (
                  arith,
                  ap length added,
                  ap length rest,
                  length-append (items l') (n ∷ []),
                  shorter,
                );
                lists = refl;
                handlers = refl;
                world = refl;
              },
            )
        | inr released ↦ (
          record c { queue_sync_key_down_list = l' },
          rw (start, update_sync_key_state, done, released) refl,
          record {
            down =
                λ k. left k ∙ released_down id key k (is_down s laws order World c) known released;
            buttons = ground arith;
            size = omega (arith, ap length rest, shorter);
            lists = refl;
            handlers = refl;
            world = refl;
          },
        )
      ]

  pub update_sync_state-Synced :
      (rounds : ℕ) (c : EvtContext s order World) (id value : ℕ)
      → list_size s laws order World c < rounds
      → (c' : EvtContext s order World) × (update_sync_state s order World rounds c id value
          ≡ some (id_after s laws order World id value (is_down s laws order World c), c'))
        × Synced s laws order World c c' id value
  unfolding update_sync_state reset_sync_state update_sync_mouse_state
  update_sync_state-Synced rounds c id value h = elim (Bool-cases (id == event_id_focus)) [
    | inl focus ↦ (
      reset_sync_state s order World c,
      rw (focus, update_sync_state)
          (ap (λ i. some (i, reset_sync_state s order World c)) (ground arith)),
      record {
        down = λ k.
            ap (λ t. has_key c.keys t k) (laws.clear_lem c.queue_sync_key_down_list)
            ∙ focus_down id value k (is_down s laws order World c) focus;
        buttons = ground arith;
        size = omega (arith, ap length (laws.clear_lem c.queue_sync_key_down_list));
        lists = refl;
        handlers = refl;
        world = refl;
      },
    )
    | inr other ↦ elim (Bool-cases (id == event_id_keydown || id == event_id_keyup)) [
      | inl pressed ↦
          let (c', done, synced) = update_sync_key_state-Synced rounds c value id pressed h in
          (c', rw (other, update_sync_state, pressed) done, synced)
      | inr neither ↦
          let same_id = kept_id id value (is_down s laws order World c) neither in
          let same_keys =
            λ (k : ℕ). kept_down id value k (is_down s laws order World c) other neither in
          elim (Bool-cases (id == event_id_mousedown || id == event_id_mouseup)) [
            | inl button ↦
                let c' = update_sync_mouse_state s order World c value (id == event_id_mousedown) in
                (
                  c',
                  rw (other, update_sync_state, neither, button) (ap (λ i. some (i, c')) same_id),
                  record {
                    down = same_keys;
                    buttons = ground arith;
                    size = omega arith;
                    lists = refl;
                    handlers = refl;
                    world = refl;
                  },
                )
            | inr nothing ↦ (
              c,
              rw (other, update_sync_state, neither, nothing) (ap (λ i. some (i, c)) same_id),
              record {
                down = same_keys;
                buttons = ground arith;
                size = omega arith;
                lists = refl;
                handlers = refl;
                world = refl;
              },
            )
          ]
    ]
  ]
