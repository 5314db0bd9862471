-- ===== src/Event/Input/Tests.antt =====
-- The input layer on concrete events.
use whoa.Base.{ℕ, ◌≡◌, refl, arith, List, [], ◌∷◌, some, true, false, replicate, set}
use whoa.Base.Int.{ℤ, pos}
use whoa.Event.Types.{OsInput, OsEvent}
use whoa.Event.OsQueue.{OsQueue, zero_event}
use whoa.Event.OsQueue.Pending.{pending, IsValid, window}
use whoa.Event.Input.{Screen, normal, relative, Input, process_all}
use whoa.Event.Input.Keys.{Agrees, Agrees-process_all}
use whoa.Event.Input.Hold.{HoldOk, HoldOk-process_all}
use whoa.Event.Input.Process.{input_process}
use whoa.Event.Input.Process.Drain.{input_process_lem, stamped, any_of}

abbrev whole_pixels : Screen
whole_pixels = record {
  Float = ℤ;
  of_int = λ x. x;
  divide = λ x y. x;
  one_minus = λ x. x;
  width = pos 800;
  height = pos 600;
}

abbrev idle : Input whole_pixels
idle = record {
  button_state = 0;
  meta_key_state = 0;
  mouse_mode = normal;
  mouse_hold_button = 0;
  context_found = true;
  posted = [];
}

-- The left button holds the mouse mode.
abbrev dragging : Input whole_pixels
dragging = record idle { button_state = 1; mouse_hold_button = 1; mouse_mode = relative }

abbrev event : OsInput → ℕ → OsEvent
event id p = record { id = id; param = pos p ∷ pos 0 ∷ pos 0 ∷ pos 0 ∷ [] }

-- Shift goes down twice, and up after a letter.
abbrev typing : List OsEvent
typing =
    event OsInput.key_down 1
    ∷ event OsInput.key_down 1
    ∷ event OsInput.key_down 65
    ∷ event OsInput.key_up 1
    ∷ []

abbrev clicking : List OsEvent
clicking = event OsInput.mouse_down 4 ∷ event OsInput.mouse_up 1 ∷ []

abbrev ring : OsQueue
ring = record {
  events = set (replicate 32 zero_event) 31 (event OsInput.key_down 65);
  head = 1;
  tail = 31;
}

Agrees-process_all_example : Agrees 1 (process_all typing false idle).0
Agrees-process_all_example = Agrees-process_all 1 typing false idle (omega arith) refl

HoldOk-process_all_example : HoldOk (process_all clicking false dragging).0
HoldOk-process_all_example =
    HoldOk-process_all clicking false dragging (record { found = refl; held = refl })

input_process_lem_example :
    (q' : OsQueue) × (input_process 32 pos 0 ring false false idle
      ≡ some
          (q', process_all (stamped pos 0 (pending ring)) false idle, any_of (pending ring) false))
    × (pending q' ≡ [])
    × IsValid q'
unfolding pending window
input_process_lem_example =
    input_process_lem 32 pos ring false idle
      (record { storage = refl; head_in = omega arith; tail_in = omega arith }) (omega arith)
