-- ===== src/Event/Input/Process/Drain.antt =====
-- The input loop handles all that waits, in order.
use whoa.Base.{
  ℕ, zero, suc, ◌+◌, ◌<◌, ◌≡◌, refl, ap, ◌∙◌, arith, length, List, [], ◌∷◌, none, some, map, set,
  ◌==◌, Bool, true, false, Bool-cases, inl, inr,
}
use whoa.Base.Int.{ℤ}
use whoa.Event.Types.{OsEvent}
use whoa.Event.OsQueue.{OsQueue, with_param}
use whoa.Event.OsQueue.Pending.{pending, IsValid}
use whoa.Event.OsQueue.Refine.{Takes, os_queue_get-Takes, pending_none}
use whoa.Event.OsQueue.SetParam.{os_queue_set_param_lem}
use whoa.Event.Input.{Screen, Input, process_input, process_all}
use whoa.Event.Input.Process.{os_input_get, input_process}

abbrev pub stamp : ℤ → OsEvent → OsEvent
stamp now e = with_param 3 now e

os_input_get-Takes :
    (now : ℤ) (q : OsQueue) → IsValid q → Takes (map (stamp now) (pending q)) (os_input_get now q)
unfolding os_input_get
os_input_get-Takes now q v = elim (Bool-cases (q.tail == q.head)) [
  | inl same ↦ rw (same, pending_none q (ground (arith, same, v.head_in))) refl
  | inr apart ↦
      let (q', run, v', marked) = os_queue_set_param_lem 3 now q v (ground arith) in
      rw (apart, run, ← marked) (os_queue_get-Takes q' v')
]

-- The events as they are processed, each with the time of its turn.
abbrev pub stamped : (ℕ → ℤ) → ℕ → List OsEvent → List OsEvent
stamped clock calls [] = []
stamped clock calls (e ∷ es) = stamp (clock calls) e ∷ stamped clock (calls + 1) es

set-set : (xs : List ℤ) (n : ℕ) (a b : ℤ) → set (set xs n a) n b ≡ set xs n b
set-set [] n a b = refl
set-set (x ∷ xs) zero a b = refl
set-set (x ∷ xs) (suc n) a b = ap (◌∷◌ x) (set-set xs n a b)

-- A later time replaces an earlier one.
stamped-map :
    (clock : ℕ → ℤ) (calls : ℕ) (now : ℤ) (es : List OsEvent)
    → stamped clock calls (map (stamp now) es) ≡ stamped clock calls es
stamped-map clock calls now [] = refl
stamped-map clock calls now (e ∷ es) =
    rw (set-set e.param 3 now (clock calls), stamped-map clock (calls + 1) now es) refl

length-map : (now : ℤ) (es : List OsEvent) → length (map (stamp now) es) ≡ length es
length-map now [] = refl
length-map now (e ∷ es) = ap suc (length-map now es)

-- Whether there is an event.
abbrev pub any_of : List OsEvent → Bool → Bool
any_of [] handled = handled
any_of (e ∷ es) handled = true

any_true : (es : List OsEvent) → any_of es true ≡ true
any_true [] = refl
any_true (e ∷ es) = refl

module _ {screen : Screen} where
  input_process_stops :
      (fuel : ℕ) (clock : ℕ → ℤ) (calls : ℕ) (q : OsQueue) (handled shutdown : Bool)
      → (i : Input screen) → os_input_get (clock calls) q ≡ none
      → input_process (suc fuel) clock calls q handled shutdown i ≡ some (q, (i, shutdown), handled)
  unfolding input_process
  input_process_stops fuel clock calls q handled shutdown i e = rw (input_process, e) refl

  input_process_goes :
      (fuel : ℕ) (clock : ℕ → ℤ) (calls : ℕ) (q : OsQueue) (handled shutdown : Bool)
      → (i : Input screen) (event : OsEvent) (q' : OsQueue)
      → os_input_get (clock calls) q ≡ some (event, q')
      → input_process (suc fuel) clock calls q handled shutdown i
        ≡ input_process fuel clock
            (calls + 1)
            q'
            true
            (process_input event shutdown i).1
            (process_input event shutdown i).0
  unfolding input_process
  input_process_goes fuel clock calls q handled shutdown i event q' e = rw (input_process, e) refl

  input_process_from :
      (es : List OsEvent) (fuel : ℕ) (clock : ℕ → ℤ) (calls : ℕ) (q : OsQueue)
      (handled shutdown : Bool) (i : Input screen)
      → IsValid q
      → pending q ≡ es
      → length es < fuel
      → (q' : OsQueue) × (input_process fuel clock calls q handled shutdown i
          ≡ some (q', process_all (stamped clock calls es) shutdown i, any_of es handled))
        × (pending q' ≡ [])
        × IsValid q'
  unfolding process_all
  input_process_from es zero clock calls q handled shutdown i v e h = absurd (omega arith)
  input_process_from [] (suc fuel) clock calls q handled shutdown i v e h =
      let takes = rw e at (os_input_get-Takes (clock calls) q v) in
      (q, input_process_stops fuel clock calls q handled shutdown i takes, e, v)
  input_process_from (x ∷ es) (suc fuel) clock calls q handled shutdown i v e h =
      let (q', takes, left, v') = rw e at (os_input_get-Takes (clock calls) q v) in
      let (q'', run, empty, v'') =
        input_process_from (map (stamp (clock calls)) es) fuel clock (calls + 1) q' true
          (process_input (stamp (clock calls) x) shutdown i).1
          (process_input (stamp (clock calls) x) shutdown i).0 v' left
          (omega (arith, length-map (clock calls) es, h)) in
      let after = process_input (stamp (clock calls) x) shutdown i in
      let results =
        ap
          (λ b. some (
            q'',
            process_all (stamped clock (calls + 1) (map (stamp (clock calls)) es)) after.1 after.0,
            b,
          ))
          (any_true (map (stamp (clock calls)) es))
        ∙ ap (λ l. some (q'', process_all l after.1 after.0, true))
            (stamped-map clock (calls + 1) (clock calls) es) in
      (
        q'',
        input_process_goes fuel clock calls q handled shutdown i (stamp (clock calls) x) q' takes
            ∙ run
            ∙ results,
        empty,
        v'',
      )

  -- On a ring whose places are in range, more rounds than there are waiting events are enough: the
  -- loop ends with no event waiting and the places in range; it has processed the waiting events, in
  -- their order, each with the time of its turn, and says whether there was any.
  pub input_process_lem :
      (fuel : ℕ) (clock : ℕ → ℤ) (q : OsQueue) (shutdown : Bool) (i : Input screen)
      → IsValid q
      → length (pending q) < fuel
      → (q' : OsQueue) × (input_process fuel clock 0 q false shutdown i
          ≡ some
              (q', process_all (stamped clock 0 (pending q)) shutdown i, any_of (pending q) false))
        × (pending q' ≡ [])
        × IsValid q'
  input_process_lem fuel clock q shutdown i v h =
      input_process_from (pending q) fuel clock 0 q false shutdown i v refl h
