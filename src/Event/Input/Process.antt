-- ===== src/Event/Input/Process.antt =====
-- src/event/Input.cpp, IEvtInputProcess, and src/event/mac/Input.cpp, OsInputGet: the loop that takes
-- the waiting events from the ring. The clock, OsGetAsyncTimeMs, is given by the number of its call.
pub mod Drain
use whoa.Base.{ℕ, zero, suc, ◌==◌, if◌then◌else◌, Option, none, some, Bool, true, false, ◌+◌}
use whoa.Base.Int.{ℤ}
use whoa.Event.Types.{OsEvent}
use whoa.Event.OsQueue.{OsQueue, os_queue_get, os_queue_set_param}
use whoa.Event.Input.{Screen, Input, process_input}

-- `OsInputGet` at a time: none where no event is waiting, and where the fuel of OsQueueSetParam
-- runs out.
pub os_input_get : ℤ → OsQueue → Option (OsEvent × OsQueue)
os_input_get now q =
    if q.tail == q.head
    then none
    else elim (os_queue_set_param 3 now q) [ none ↦ none | some stamped ↦ os_queue_get stamped ]

-- `IEvtInputProcess` reads the clock at `clock calls`. What it leaves is the ring, the input state
-- and `shutdown`, and its result whether there was an event; `none` means that the fuel ran out.
module _ {screen : Screen} where
  pub input_process :
      ℕ
      → (ℕ → ℤ)
      → ℕ
      → OsQueue
      → Bool
      → Bool
      → Input screen
      → Option (OsQueue × (Input screen × Bool) × Bool)
  input_process zero clock calls q handled shutdown i = none
  input_process (suc fuel) clock calls q handled shutdown i = elim (os_input_get (clock calls) q) [
    | none ↦ some (q, (i, shutdown), handled)
    | some (event, q') ↦
        input_process fuel clock (calls + 1) q' true (process_input event shutdown i).1
          (process_input event shutdown i).0
  ]
