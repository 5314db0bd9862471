-- ===== src/Event/Queue/Tests.antt =====
-- Examples of a queue.
mod Nodes
use whoa.Base.{
  ℕ, zero, suc, ◌+◌, ◌<◌, ◌≤◌, ◌≡◌, refl, arith, ◌==◌, ltb, bit_and, ◌&&◌, ◌||◌, if◌then◌else◌,
  Bool, true, false, List, [], ◌∷◌, ◌++◌, map, Option, none, some, length, All,
}
use whoa.Event.Queue.{
  ExplicitList, ListLaws, Priority, EvtContext, EvtHandler, dispatch, register,
  check_sync_key_state,
}
use whoa.Event.Queue.SyncKeys.{id_after, is_down}
use whoa.Event.Queue.SyncTrace.{
  update_sync_states, downs_after, ids_after, all_buttons_after, update_sync_states_lem,
}
use whoa.Event.Queue.Dispatch.{call_each, dispatch_lem}
use whoa.Event.Queue.Register.{PriorityLaws, IsSorted, IsPlace, passed_over, register_lem}
use whoa.Event.Queue.Unregister.{event_ids, node_matched, is_spaced, unmatched, unregister}
use whoa.Event.Queue.Unregister.Lists.{unregister_lem}
use whoa.Event.Queue.Tests.Nodes.{nodes, nodes-laws}

abbrev numbers : Priority
numbers = record { Value = ℕ; less = ltb }

numbers-laws : PriorityLaws numbers
numbers-laws = record {
  asym = λ (a b : ℕ) h. ground arith;
  negative = λ (a b c : ℕ) h k. ground arith;
}

-- A world that is the parameters of the handlers called, last first; a handler of parameter 0 ends the
-- dispatch.
abbrev act : ℕ → ℕ → List ℕ → Bool × List ℕ
act f p w = (if p == 0 then false else true, p ∷ w)

abbrev call : ℕ → ℕ → EvtContext nodes numbers (List ℕ) → Bool × EvtContext nodes numbers (List ℕ)
call f p c = ((act f p c.world).0, record c { world = (act f p c.world).1 })

-- Three handlers at 1, 2 and 3 for every event, the key 65 down.
abbrev some_handlers : ℕ → EvtHandler nodes numbers (List ℕ)
some_handlers a = record { func = 7; param = if a == 2 then 0 else a; priority = 9; marker = false }

abbrev some_context : EvtContext nodes numbers (List ℕ)
some_context = record {
  queue_handler_list = λ id. (1 ∷ 2 ∷ 3 ∷ [], ground arith);
  handlers = some_handlers;
  queue_sync_button_state = 0;
  queue_sync_key_down_list = (4 ∷ [], (tt, tt));
  keys = λ a. 65;
  world = [];
}

-- The key 65 is pressed again, 66 pressed and released, a button pressed.
abbrev some_events : List (ℕ × ℕ)
some_events = (9, 65) ∷ (9, 66) ∷ (12, 1) ∷ (10, 66) ∷ []

update_sync_states_lem_example :
    (c' : EvtContext nodes numbers (List ℕ)) × (update_sync_states nodes numbers
        (List ℕ)
        6
        some_context
        some_events
      ≡ some (11 ∷ 9 ∷ 12 ∷ 10 ∷ [], c'))
    × ((key : ℕ)
        → check_sync_key_state nodes numbers (List ℕ) 6 c' key
          ≡ some (
              downs_after nodes nodes-laws numbers
                (List ℕ)
                some_events
                (is_down nodes nodes-laws numbers (List ℕ) some_context)
                key))
    × (c'.queue_sync_button_state ≡ 1)
update_sync_states_lem_example =
    update_sync_states_lem nodes nodes-laws numbers (List ℕ) 6 some_context some_events
      (omega arith)

dispatch_lem_example :
    (c' : EvtContext nodes numbers (List ℕ)) × (dispatch nodes numbers
        (List ℕ)
        call
        0
        4
        2
        some_context
        9
        65
      ≡ some c')
    × (c'.world
        ≡ call_each nodes nodes-laws numbers
            (List ℕ)
            call
            act
            (map some_handlers (1 ∷ 2 ∷ 3 ∷ []))
            [])
    × ((id : ℕ) → (c'.queue_handler_list id).0 ≡ 1 ∷ 2 ∷ 3 ∷ [])
    × (map c'.handlers (1 ∷ 2 ∷ 3 ∷ []) ≡ map some_handlers (1 ∷ 2 ∷ 3 ∷ []))
dispatch_lem_example =
    dispatch_lem nodes nodes-laws numbers (List ℕ) call act 0 4 2 some_context 9 65 (λ f p c. refl)
      (omega arith) (omega arith)

-- A handler of priority 9 is registered: it comes before the others of that priority.
register_lem_example :
    (c' : EvtContext nodes numbers (List ℕ)) × (n : ℕ) × (p q : List ℕ) × (register nodes numbers
        (List ℕ)
        4
        some_context
        9
        7
        5
        9
      ≡ some c')
    × (1 ∷ 2 ∷ 3 ∷ [] ≡ p ++ q)
    × ((c'.queue_handler_list 9).0 ≡ p ++ (n ∷ q))
    × (c'.handlers n ≡ record { func = 7; param = 5; priority = 9; marker = false })
    × (map c'.handlers (p ++ q) ≡ map some_handlers (p ++ q))
    × All (λ a. passed_over nodes nodes-laws numbers (List ℕ) 9 (c'.handlers a) ≡ true) p
    × IsPlace nodes nodes-laws numbers (List ℕ) c'.handlers 9 q
    × IsSorted nodes nodes-laws numbers (List ℕ) c'.handlers (c'.queue_handler_list 9).0
register_lem_example =
    register_lem nodes nodes-laws numbers (List ℕ) numbers-laws 4 some_context 9 7 5 9 (omega arith)
      ((refl, (refl, tt)), ((refl, tt), (tt, tt)))

-- The handlers with the parameter 0 are taken out of all lists: the one at 2.
unregister_lem_example :
    (c' : EvtContext nodes numbers (List ℕ)) × (unregister nodes numbers
        (List ℕ)
        4
        some_context
        0
        7
        0
        6
      ≡ some c')
    × ((j : ℕ)
        → (c'.queue_handler_list j).0 ≡ (
            if ltb j event_ids && (bit_and 6 1 == 0 || j == 0)
            then unmatched
                (λ a. node_matched nodes numbers (List ℕ) 7 0 6 (some_handlers a))
                (1 ∷ 2 ∷ 3 ∷ [])
            else 1 ∷ 2 ∷ 3 ∷ []))
    × (c'.handlers ≡ some_handlers)
unfolding node_matched
unregister_lem_example =
    unregister_lem nodes nodes-laws numbers (List ℕ) 4 some_context 0 7 0 6
      (λ j h l. (omega arith, refl))
