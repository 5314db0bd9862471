-- ===== src/Event/Queue/SyncTrace.antt =====
-- The keys and buttons of a context after any sequence of events.
use whoa.Base.{
  ℕ, zero, suc, ◌+◌, ◌<◌, ◌≡◌, refl, sym, ap, ◌∙◌, arith, ◌==◌, Bool, List, [], ◌∷◌, ◌++◌, Option,
  some, length, append_assoc, Bool-cases, inl, inr,
}
use whoa.Base.Fallible.{◌>>=◌}
use whoa.Event.Queue.{
  ExplicitList, ListLaws, Priority, EvtContext, first_of, update_sync_state, check_keys,
  check_sync_key_state,
}
use whoa.Event.Queue.SyncKeys.Updates.{update_sync_state-Synced}
use whoa.Event.Queue.SyncKeys.{has_key, is_down, down_after, id_after, buttons_after, list_size}

module _ (s : ExplicitList) (order : Priority) (World : Type 0) where
  -- UpdateSyncState for the events of a sequence, each an id and the key or button of its data: the ids
  -- that they are dispatched under, and the context at the end.
  pub update_sync_states :
      ℕ → EvtContext s order World → List (ℕ × ℕ) → Option (List ℕ × EvtContext s order World)
  update_sync_states rounds c [] = some ([], c)
  update_sync_states rounds c ((id, value) ∷ events) =
      update_sync_state s order World rounds c id value >>= λ r.
      update_sync_states rounds r.1 events >>= λ rest. some (r.0 ∷ rest.0, rest.1)

module _ (s : ExplicitList) (laws : ListLaws s) (order : Priority) (World : Type 0) where
  open laws use {items}

  -- What is down, the ids and the buttons after a sequence, told of the events alone.
  abbrev pub downs_after : List (ℕ × ℕ) → (ℕ → Bool) → ℕ → Bool
  downs_after [] down = down
  downs_after ((id, value) ∷ events) down =
      downs_after events (down_after s laws order World id value down)

  abbrev pub ids_after : List (ℕ × ℕ) → (ℕ → Bool) → List ℕ
  ids_after [] down = []
  ids_after ((id, value) ∷ events) down =
      id_after s laws order World id value down
      ∷ ids_after events (down_after s laws order World id value down)

  abbrev pub all_buttons_after : List (ℕ × ℕ) → ℕ → ℕ
  all_buttons_after [] buttons = buttons
  all_buttons_after ((id, value) ∷ events) buttons =
      all_buttons_after events (buttons_after s laws order World id value buttons)

  check_keys_lem :
      (rounds : ℕ) (keys : ℕ → ℕ) (key : ℕ) (l : s.Links) (p q : List ℕ)
      → items l ≡ p ++ q
      → length q < rounds
      → check_keys s order World rounds keys key (first_of q) l ≡ some (has_key keys q key)
  unfolding check_keys
  check_keys_lem zero keys key l p q e h = absurd (omega arith)
  check_keys_lem (suc rounds) keys key l p [] e h = refl
  check_keys_lem (suc rounds) keys key l p (a ∷ q) e h = elim (Bool-cases (keys a == key)) [
    | inl same ↦ rw (same, check_keys) refl
    | inr other ↦
        rw (other, check_keys, laws.next_lem a l p q e)
          (check_keys_lem rounds keys key l (p ++ (a ∷ [])) q (e ∙ sym (append_assoc p (a ∷ []) q))
            (omega arith))
  ]

  check_sync_key_state_lem :
      (rounds : ℕ) (c : EvtContext s order World) (key : ℕ)
      → list_size s laws order World c < rounds
      → check_sync_key_state s order World rounds c key ≡ some (is_down s laws order World c key)
  unfolding check_sync_key_state
  check_sync_key_state_lem rounds c key h =
      rw (laws.head_lem c.queue_sync_key_down_list, check_sync_key_state)
        (check_keys_lem rounds c.keys key c.queue_sync_key_down_list []
          (items c.queue_sync_key_down_list) refl h)

  -- For any sequence of events, and more rounds of the loops than there are keys at first and events:
  -- the loops end. Each event is dispatched under its own id, but pressing a key that is down already
  -- under that of a repetition. Afterwards a key is found down exactly if it is by the events: pressed
  -- last, or down at first, and neither released since nor followed by a change of the focus; and
  -- the buttons are those pressed and not released in the same sense.
  pub update_sync_states_lem :
      (rounds : ℕ) (c : EvtContext s order World) (events : List (ℕ × ℕ))
      → list_size s laws order World c + length events < rounds
      → (c' : EvtContext s order World) × (update_sync_states s order World rounds c events
          ≡ some (ids_after events (is_down s laws order World c), c'))
        × ((key : ℕ)
            → check_sync_key_state s order World rounds c' key
              ≡ some (downs_after events (is_down s laws order World c) key))
        × (c'.queue_sync_button_state ≡ all_buttons_after events c.queue_sync_button_state)
  unfolding update_sync_states
  update_sync_states_lem rounds c [] h =
      (c, refl, λ key. check_sync_key_state_lem rounds c key (omega arith), refl)
  update_sync_states_lem rounds c ((id, value) ∷ events) h =
      let (c1, done, synced) =
        update_sync_state-Synced s laws order World rounds c id value (omega arith) in
      let (c', rest, checked, buttons) =
        update_sync_states_lem rounds c1 events (omega (arith, synced.size)) in
      let down = is_down s laws order World c in
      let down1 = is_down s laws order World c1 in
      let same : down1 ≡ down_after s laws order World id value down = λ i k. synced.down k i in
      (
        c',
        rw (done, update_sync_states, rest)
            (ap (λ d. some (id_after s laws order World id value down ∷ ids_after events d, c'))
              same),
        λ key. checked key ∙ ap (λ d. some (downs_after events d key)) same,
        buttons ∙ ap (all_buttons_after events) synced.buttons,
      )
