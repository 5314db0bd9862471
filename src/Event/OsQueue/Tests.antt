-- ===== src/Event/OsQueue/Tests.antt =====
-- A full ring, and one with two events in it.
use whoa.Base.{◌≡◌, arith, [], ◌∷◌, replicate, set, some, map}
use whoa.Base.Int.{pos}
use whoa.Event.Types.{OsInput, OsEvent}
use whoa.Event.OsQueue.{
  OsQueue, zero_event, os_queue_put, os_queue_get, os_queue_set_param, with_param,
}
use whoa.Event.OsQueue.Pending.{pending, IsValid}
use whoa.Event.OsQueue.Refine.{bounded_push, pending-os_queue_put, Takes, os_queue_get-Takes}
use whoa.Event.OsQueue.SetParam.{os_queue_set_param_lem}

abbrev key_press : OsEvent
key_press = record { id = OsInput.key_down; param = pos 65 ∷ pos 0 ∷ pos 0 ∷ pos 9 ∷ [] }

abbrev full_queue : OsQueue
full_queue = record { events = replicate 32 zero_event; head = 4; tail = 5 }

abbrev short_queue : OsQueue
short_queue = record { events = set (replicate 32 zero_event) 31 key_press; head = 1; tail = 31 }

full_queue-IsValid : IsValid full_queue
full_queue-IsValid = omega arith

short_queue-IsValid : IsValid short_queue
short_queue-IsValid = omega arith

pending-os_queue_put_example :
    pending (os_queue_put key_press full_queue) ≡ bounded_push key_press (pending full_queue)
pending-os_queue_put_example = pending-os_queue_put key_press full_queue full_queue-IsValid

os_queue_get-Takes_example : Takes (key_press ∷ zero_event ∷ []) (os_queue_get short_queue)
unfolding pending
os_queue_get-Takes_example = os_queue_get-Takes short_queue short_queue-IsValid

os_queue_set_param_lem_example :
    (q' : OsQueue) × (os_queue_set_param 3 (pos 77) short_queue ≡ some q')
    × IsValid q'
    × (pending q' ≡ map (with_param 3 (pos 77)) (pending short_queue))
os_queue_set_param_lem_example =
    os_queue_set_param_lem 3 (pos 77) short_queue short_queue-IsValid (omega arith)
