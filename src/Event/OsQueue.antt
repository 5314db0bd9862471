-- ===== src/Event/OsQueue.antt =====
-- src/event/Input.cpp, OsQueueGet, OsQueuePut and OsQueueSetParam: a ring of OS_QUEUE_SIZE events.
pub mod Pending
pub mod Refine
pub mod SetParam
mod Tests
use whoa.Base.{
  ℕ, zero, suc, ◌+◌, ◌-◌, List, [], ◌∷◌, Option, none, some, get_or, set, ◌==◌, ltb, if◌then◌else◌,
  Bool, true, false, not,
}
use whoa.Base.Int.{ℤ, pos}
use whoa.Event.Types.{OsInput, OsEvent}

abbrev pub os_queue_size : ℕ
os_queue_size = 32

-- s_queue, s_queueHead and s_queueTail.
pub record OsQueue : Type 0 where
  pub events : List OsEvent
  pub head : ℕ
  pub tail : ℕ

-- What a read out of range would give; `IsValid` of `Pending` rules it out.
abbrev pub zero_event : OsEvent
zero_event = record { id = OsInput.capture_changed; param = pos 0 ∷ pos 0 ∷ pos 0 ∷ pos 0 ∷ [] }

pub os_queue_get : OsQueue → Option (OsEvent × OsQueue)
os_queue_get q =
    if q.tail == q.head
    then none
    else some (
      get_or q.events q.tail zero_event,
      record q { tail = if q.tail == os_queue_size - 1 then 0 else q.tail + 1 },
    )

pub os_queue_put : OsEvent → OsQueue → OsQueue
os_queue_put event q =
    let next_head = if not (q.head == os_queue_size - 1) then q.head + 1 else 0 in
    let next_tail = if not (next_head == os_queue_size - 1) then next_head + 1 else 0 in
    record q {
      tail = if next_head == q.tail then next_tail else q.tail;
      events = set q.events q.head event;
      head = next_head;
    }

abbrev pub with_param : ℕ → ℤ → OsEvent → OsEvent
with_param index v event = record event { param = set event.param index v }

-- An assignment to `param[index]`; `none` out of its four entries, where the source has no check and
-- writes behind the event.
abbrev pub set_event_param : ℕ → ℤ → OsEvent → Option OsEvent
set_event_param index v event = if ltb index 4 then some (with_param index v event) else none

-- The loop of OsQueueSetParam from `pos`; `none` means that the fuel ran out, or that a write is not
-- in the event.
pub set_param_from : ℕ → ℕ → ℤ → ℕ → OsQueue → Option OsQueue
set_param_from zero index v at q = none
set_param_from (suc fuel) index v at q =
    if at == q.head
    then some q
    else elim (set_event_param index v (get_or q.events at zero_event)) [
      | none ↦ none
      | some event ↦
          set_param_from fuel index v (if at == os_queue_size - 1 then 0 else at + 1)
            (record q { events = set q.events at event })
    ]

pub os_queue_set_param : ℕ → ℤ → OsQueue → Option OsQueue
unfolding set_param_from
os_queue_set_param index v q = set_param_from os_queue_size index v q.tail q
