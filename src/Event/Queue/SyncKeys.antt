-- ===== src/Event/Queue/SyncKeys.antt =====
-- The keys that a context takes to be down.
pub mod Delete
pub mod Updates
use whoa.Base.{
  ℕ, zero, suc, ◌+◌, ◌<◌, ◌≤◌, ◌≡◌, refl, sym, ap, ◌∙◌, arith, ◌==◌, not, ◌&&◌, ◌||◌, bit_and,
  bit_or, if◌then◌else◌, Bool, true, false, List, [], ◌∷◌, ◌++◌, none, some, length, length-append,
  append_assoc, Bool-cases, inl, inr,
}
use whoa.Base.Removal.{Avoids, remove-Avoids}
use whoa.Event.Input.{complement}
use whoa.Event.Queue.{
  ExplicitList, ListLaws, Priority, EvtContext, first_of, put_at, event_id_focus, event_id_keydown,
  event_id_keyup, event_id_keydown_repeating, event_id_mousedown, event_id_mouseup, delete_keys,
  new_key, update_sync_key_state, reset_sync_state, update_sync_mouse_state, update_sync_state,
}

-- Whether a key is at one of some addresses.
abbrev pub has_key : (ℕ → ℕ) → List ℕ → ℕ → Bool
has_key keys [] key = false
has_key keys (a ∷ as') key = keys a == key || has_key keys as' key

abbrev pub other_keys : (ℕ → ℕ) → ℕ → List ℕ → List ℕ
other_keys keys key [] = []
other_keys keys key (a ∷ as') =
    if keys a == key then other_keys keys key as' else a ∷ other_keys keys key as'

module _ (s : ExplicitList) (laws : ListLaws s) (order : Priority) (World : Type 0) where
  open laws use {items}

  -- Whether a context takes a key to be down.
  abbrev pub is_down : EvtContext s order World → ℕ → Bool
  is_down c key = has_key c.keys (items c.queue_sync_key_down_list) key

  -- What is down after an event, and the id it is dispatched under.
  abbrev pub down_after : ℕ → ℕ → (ℕ → Bool) → ℕ → Bool
  down_after id value down key =
      if id == event_id_focus
      then false
      else if id == event_id_keydown
      then key == value || down key
      else if id == event_id_keyup
      then not (key == value) && down key
      else down key

  abbrev pub id_after : ℕ → ℕ → (ℕ → Bool) → ℕ
  id_after id value down =
      if id == event_id_keydown && down value then event_id_keydown_repeating else id

  -- The buttons: a digit each.
  abbrev pub buttons_after : ℕ → ℕ → ℕ → ℕ
  buttons_after id value buttons =
      if id == event_id_focus
      then 0
      else if id == event_id_mousedown
      then bit_or buttons value
      else if id == event_id_mouseup
      then bit_and buttons (complement value)
      else buttons

  abbrev pub list_size : EvtContext s order World → ℕ
  list_size c = length (items c.queue_sync_key_down_list)

  pub record Synced (c c' : EvtContext s order World) (id value : ℕ) : Type 0 where
    pub down : (key : ℕ) → is_down c' key ≡ down_after id value (is_down c) key
    pub buttons : c'.queue_sync_button_state ≡ buttons_after id value c.queue_sync_button_state
    pub size : list_size c' ≤ list_size c + 1
    pub lists : c'.queue_handler_list ≡ c.queue_handler_list
    pub handlers : c'.handlers ≡ c.handlers
    pub world : c'.world ≡ c.world
