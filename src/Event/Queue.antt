-- ===== src/Event/Queue.antt =====
-- src/event/Queue.cpp: the handlers of the events of a context, and the keys and buttons that are down.
-- The lists are those of storm, which is not code of the repository: the interface ExplicitList, with
-- what the code relies on as its laws. A node is known by its address. What a handler does is a
-- parameter. The locks are not here.
pub mod SyncKeys
pub mod SyncTrace
pub mod Entries
pub mod Dispatch
pub mod Register
pub mod Unregister
mod Tests
use whoa.Base.{
  ℕ, zero, suc, ◌+◌, ◌≡◌, ◌==◌, not, ◌&&◌, ◌||◌, bit_and, bit_or, if◌then◌else◌, Bool, true, false,
  List, [], ◌∷◌, ◌++◌, Option, none, some,
}
use whoa.Base.Removal.{remove, Avoids, Distinct}
use whoa.Base.Fallible.{◌>>=◌}
use whoa.Event.Input.{complement}

abbrev pub first_of : List ℕ → Option ℕ
first_of [] = none
first_of (a ∷ as') = some a

-- TSExplicitList and its links: LinkNode with 1 links behind a node or at the head, with 2 before a
-- node or at the tail. `fresh` is an address for a new node.
pub record ExplicitList : Type 1 where
  pub Links : Type 0
  pub fresh : Links → ℕ
  pub head : Links → Option ℕ
  pub next : ℕ → Links → Option ℕ
  pub link_after : ℕ → Option ℕ → Links → Links
  pub link_before : ℕ → Option ℕ → Links → Links
  pub unlink_node : ℕ → Links → Links
  -- DeleteNode, with the node that followed
  pub delete_node : ℕ → Links → Option ℕ × Links
  pub clear : Links → Links

pub record ListLaws (s : ExplicitList) : Type 0 where
  pub items : s.Links → List ℕ
  pub distinct : (l : s.Links) → Distinct (items l)
  pub fresh_lem : (l : s.Links) → Avoids (s.fresh l) (items l)
  pub head_lem : (l : s.Links) → s.head l ≡ first_of (items l)
  pub next_lem :
      (n : ℕ) (l : s.Links) (p q : List ℕ) → items l ≡ p ++ (n ∷ q) → s.next n l ≡ first_of q
  pub after_head : (n : ℕ) (l : s.Links) → items (s.link_after n none l) ≡ n ∷ remove n (items l)
  pub after_node :
      (n e : ℕ) (l : s.Links) (p q : List ℕ)
      → remove n (items l) ≡ p ++ (e ∷ q)
      → items (s.link_after n (some e) l) ≡ p ++ (e ∷ (n ∷ q))
  pub before_tail :
      (n : ℕ) (l : s.Links) → items (s.link_before n none l) ≡ remove n (items l) ++ (n ∷ [])
  pub before_node :
      (n e : ℕ) (l : s.Links) (p q : List ℕ)
      → remove n (items l) ≡ p ++ (e ∷ q)
      → items (s.link_before n (some e) l) ≡ p ++ (n ∷ (e ∷ q))
  pub unlink_lem : (n : ℕ) (l : s.Links) → items (s.unlink_node n l) ≡ remove n (items l)
  pub delete_lem :
      (n : ℕ) (l : s.Links) (p q : List ℕ)
      → items l ≡ p ++ (n ∷ q)
      → ((s.delete_node n l).0 ≡ first_of q) × (items (s.delete_node n l).1 ≡ p ++ q)
  pub clear_lem : (l : s.Links) → items (s.clear l) ≡ []

-- EVENTID, as far as it is told apart.
abbrev pub event_id_focus : ℕ
event_id_focus = 2

abbrev pub event_id_keydown : ℕ
event_id_keydown = 9

abbrev pub event_id_keyup : ℕ
event_id_keyup = 10

abbrev pub event_id_keydown_repeating : ℕ
event_id_keydown_repeating = 11

abbrev pub event_id_mousedown : ℕ
event_id_mousedown = 12

abbrev pub event_id_mouseup : ℕ
event_id_mouseup = 15

-- The order of priorities, which are floats.
pub record Priority : Type 1 where
  pub Value : Type 0
  pub less : Value → Value → Bool

module _ (s : ExplicitList) (order : Priority) (World : Type 0) where
  pub record EvtHandler : Type 0 where
    pub func : ℕ
    pub param : ℕ
    pub priority : order.Value
    pub marker : Bool

  -- The members of a context that the queue uses, with what is at the addresses of the handlers and of
  -- the keys, and all that is outside of the queue.
  pub record EvtContext : Type 0 where
    pub queue_handler_list : ℕ → s.Links
    pub handlers : ℕ → EvtHandler
    pub queue_sync_button_state : ℕ
    pub queue_sync_key_down_list : s.Links
    pub keys : ℕ → ℕ
    pub world : World

  abbrev pub put_at {ℓ} : {A : Type ℓ} → ℕ → A → (ℕ → A) → ℕ → A
  put_at i a f j = if j == i then a else f j

  pub update_sync_mouse_state : EvtContext → ℕ → Bool → EvtContext
  update_sync_mouse_state c button down = record c {
    queue_sync_button_state =
        if down
        then bit_or c.queue_sync_button_state button
        else bit_and c.queue_sync_button_state (complement button);
  }

  -- The loop of UpdateSyncKeyState from a node on, with keyDown; none when the rounds are used up.
  pub delete_keys : ℕ → (ℕ → ℕ) → ℕ → Option ℕ → Bool → s.Links → Option (Bool × s.Links)
  delete_keys zero keys key place key_down l = none
  delete_keys (suc rounds) keys key none key_down l = some (key_down, l)
  delete_keys (suc rounds) keys key (some n) key_down l = elim (keys n == key) [
    | true ↦ delete_keys rounds keys key (s.delete_node n l).0 true (s.delete_node n l).1
    | false ↦ delete_keys rounds keys key (s.next n l) key_down l
  ]

  pub new_key : EvtContext → ℕ → s.Links → EvtContext
  new_key c key l =
      let n = s.fresh l in
      record c { queue_sync_key_down_list = s.link_before n none l; keys = put_at n key c.keys }

  -- `UpdateSyncKeyState`, with the id that it leaves.
  pub update_sync_key_state : ℕ → EvtContext → ℕ → ℕ → Option (ℕ × EvtContext)
  update_sync_key_state rounds c key id =
      delete_keys rounds c.keys key (s.head c.queue_sync_key_down_list) false
        c.queue_sync_key_down_list
      >>= λ r.
          if id == event_id_keydown
          then some (if r.0 then event_id_keydown_repeating else id, new_key c key r.1)
          else some (id, record c { queue_sync_key_down_list = r.1 })

  pub reset_sync_state : EvtContext → EvtContext
  reset_sync_state c = record c {
    queue_sync_button_state = 0;
    queue_sync_key_down_list = s.clear c.queue_sync_key_down_list;
  }

  -- `UpdateSyncState`, with the key or the button that the data of the event hold.
  pub update_sync_state : ℕ → EvtContext → ℕ → ℕ → Option (ℕ × EvtContext)
  update_sync_state rounds c id value =
      if id == event_id_focus
      then some (id, reset_sync_state c)
      else if id == event_id_keydown || id == event_id_keyup
      then update_sync_key_state rounds c value id
      else if id == event_id_mousedown || id == event_id_mouseup
      then some (id, update_sync_mouse_state c value (id == event_id_mousedown))
      else some (id, c)

  -- The loop of IEvtQueueCheckSyncKeyState.
  pub check_keys : ℕ → (ℕ → ℕ) → ℕ → Option ℕ → s.Links → Option Bool
  check_keys zero keys key place l = none
  check_keys (suc rounds) keys key none l = some false
  check_keys (suc rounds) keys key (some n) l = elim (keys n == key) [
    | true ↦ some true
    | false ↦ check_keys rounds keys key (s.next n l) l
  ]

  pub check_sync_key_state : ℕ → EvtContext → ℕ → Option Bool
  check_sync_key_state rounds c key =
      check_keys rounds c.keys key (s.head c.queue_sync_key_down_list) c.queue_sync_key_down_list

-- What the handlers do, given the function, the parameter and the context.
module _ (s : ExplicitList) (order : Priority) (World : Type 0)
    (call : ℕ → ℕ → EvtContext s order World → Bool × EvtContext s order World) where
  -- The loop of IEvtQueueDispatch over the list of an event; none when the rounds are used up.
  pub dispatch_from : ℕ → ℕ → ℕ → EvtContext s order World → Option (EvtContext s order World)
  dispatch_from zero marker id c = none
  dispatch_from (suc rounds) marker id c =
      let l = c.queue_handler_list id in
      elim (s.next marker l) [
        | none ↦ some c
        | some a ↦
            let moved = record c {
              queue_handler_list =
                  put_at s order World id (s.link_after marker (some a) l) c.queue_handler_list;
            } in
            let h = moved.handlers a in
            let called = call h.func h.param moved in
            elim h.marker [
              | true ↦ dispatch_from rounds marker id moved
              | false ↦ elim called.0 [
                | false ↦ some called.1
                | true ↦ dispatch_from rounds marker id called.1
              ]
            ]
      ]

  -- `IEvtQueueDispatch`: a marker that is no node of the list is linked at its head, moved behind each
  -- handler before this is called, and unlinked.
  pub dispatch :
      order.Value → ℕ → ℕ → EvtContext s order World → ℕ → ℕ → Option (EvtContext s order World)
  dispatch any_priority rounds key_rounds c0 event value =
      update_sync_state s order World key_rounds c0 event value >>= λ r.
      let id = r.0 in
      let c = r.1 in
      let l = c.queue_handler_list id in
      let marker = s.fresh l in
      let entry : EvtHandler s order World = record {
        func = 0;
        param = 0;
        priority = any_priority;
        marker = true;
      } in
      dispatch_from rounds marker id (record c {
        queue_handler_list =
            put_at s order World id (s.link_after marker none l) c.queue_handler_list;
        handlers = put_at s order World marker entry c.handlers;
      })
      >>= λ c'. some (record c' {
        queue_handler_list =
            put_at s order World id (s.unlink_node marker (c'.queue_handler_list id))
              c'.queue_handler_list;
      })

module _ (s : ExplicitList) (order : Priority) (World : Type 0) where
  -- The loop of IEvtQueueRegister from a node on: the first handler that is no marker and of no higher
  -- priority.
  pub find_place :
      ℕ → EvtContext s order World → s.Links → order.Value → Option ℕ → Option (Option ℕ)
  find_place zero c l priority place = none
  find_place (suc rounds) c l priority none = some none
  find_place (suc rounds) c l priority (some a) =
      elim (order.less priority (c.handlers a).priority || (c.handlers a).marker) [
        | true ↦ find_place rounds c l priority (s.next a l)
        | false ↦ some (some a)
      ]

  pub register :
      ℕ → EvtContext s order World → ℕ → ℕ → ℕ → order.Value → Option (EvtContext s order World)
  register rounds c id handler param priority =
      let l = c.queue_handler_list id in
      let n = s.fresh l in
      let entry : EvtHandler s order World = record {
        func = handler;
        param = param;
        priority = priority;
        marker = false;
      } in
      let filled = record c { handlers = put_at s order World n entry c.handlers } in
      find_place rounds filled l priority (s.head l) >>= λ place. some (record filled {
        queue_handler_list = put_at s order World id (s.link_before n place l) c.queue_handler_list;
      })
