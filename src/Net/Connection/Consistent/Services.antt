-- ===== src/Net/Connection/Consistent/Services.antt =====
-- Each service of a connection, and any sequence of them.
use whoa.Base.{
  if◌then◌else◌, ◌==◌, ◌<◌, ◌≤◌, ℕ, ◌+◌, ◌-◌, ◌≡◌, refl, arith, ◌||◌, Bool, true, false, List, [],
  ◌∷◌, ◌++◌, Option, none, some, All, Bool-cases, inl, inr,
}
use whoa.Net.Connection.{
  ConnState, connected, disconnected, Call, wc_cant_connect, wc_connected, wc_disconnected,
  WowConnection, is_connected, is_connecting, Action, to_connect, to_disconnect, to_release, Event,
  writes, exceptions, stream_reads, message_reads, disconnects, owner_acts, remove_and_close,
  disconnect, act, act_all, add_ref, release, acquire_response_ref, release_response_ref,
  check_connect, do_disconnect, end_stream, do_stream_reads, is_disconnecting, notify,
  wc_data_ready, handle, handle_all, message_rounds, message_calls, notify_about_to_do_reads,
  wc_message_ready,
}
use whoa.Net.Connection.Consistent.{
  is_idle, Consistent, alive, idle, closed, disconnect-Consistent, act_all-Consistent, releases,
  fewer, drop_ref, take_ref,
}

drop_response_ref :
    (r : ℕ) (c : WowConnection) → Consistent r 1 c → Consistent r 0 (release_response_ref c)
drop_response_ref r c (alive state s refs calls h e) = Consistent.alive state s refs calls h e
drop_response_ref r c (idle state refs calls h e) = Consistent.idle state refs calls h e

-- The owner makes no new connection.
abbrev pub connects : Action → Bool
connects (to_connect created result) = true
connects other = false

abbrev pub IsCalm : List Action → Type 0
IsCalm actions = All (λ a. connects a ≡ false) actions

-- A connection whose owner is told of the end: the socket is closed, and not yet taken away.
abbrev closing : ℕ → ℕ → List Call → WowConnection
closing s refs calls = record {
  conn_state = disconnected;
  sock = some s;
  is_linked = false;
  ref_count = refs;
  is_deleted = false;
  asserts_hold = true;
  response_ref = 1;
  open_sockets = [];
  calls = calls;
}

-- The owner can then only release it.
act_all_calm :
    (r s refs : ℕ) (calls : List Call) (actions : List Action)
    → IsCalm actions
    → releases actions + r < refs
    → (refs' : ℕ) × (r < refs') × (act_all actions (closing s refs calls) ≡ closing s refs' calls)
unfolding act_all act disconnect
act_all_calm r s refs calls [] k e = (refs, omega arith, refl)
act_all_calm r s refs calls (to_connect created result ∷ actions) k e = absurd (ground (arith, k.0))
act_all_calm r s refs calls (to_disconnect ∷ actions) k e =
    act_all_calm r s refs calls actions k.1 e
act_all_calm r s refs calls (to_release ∷ actions) k e =
    let held : (refs - 1 == 0) ≡ false = ground arith in
    let (refs', lt, run) = act_all_calm r s (refs - 1) calls actions k.1 (omega arith) in
    (refs', lt, rw held run)

apart : (state : ConnState) → is_idle state ≡ true → is_connecting state ≡ true → ⊥
apart state h k = ground arith

check_connect-Consistent :
    (r r' : ℕ) (readable err : Bool) (actions : List Action) (c : WowConnection)
    → Consistent r' 0 c
    → is_connecting c.conn_state ≡ true
    → releases actions + r ≤ r'
    → Consistent r 0 (check_connect readable err actions c)
unfolding check_connect remove_and_close
check_connect-Consistent r r' false err actions c h k le = fewer r r' c h (omega arith)
check_connect-Consistent r r' true true actions c (alive state s refs calls h e) k le =
    rw (closed s) (
      drop_ref r (r + 1) _
        (drop_response_ref (r + 1) _ (
          act_all-Consistent (r + 1) (r' + 1) actions _
            (Consistent.idle disconnected (refs + 1) (calls ++ (wc_cant_connect ∷ [])) refl
              (omega arith))
            (omega arith)))
        (omega arith))
check_connect-Consistent r r' true false actions c (alive state s refs calls h e) k le =
    drop_ref r (r + 1) _
      (drop_response_ref (r + 1) _ (
        act_all-Consistent (r + 1) (r' + 1) actions _
          (Consistent.alive connected s (refs + 1) (calls ++ (wc_connected ∷ [])) refl
            (omega arith))
          (omega arith)))
      (omega arith)
check_connect-Consistent r r' true err actions c (idle state refs calls h e) k le =
    absurd (apart state h k)

do_disconnect-Consistent :
    (r r' : ℕ) (actions : List Action) (c : WowConnection)
    → Consistent r' 0 c
    → IsCalm actions
    → releases actions + r ≤ r'
    → Consistent r 0 (do_disconnect actions c)
unfolding do_disconnect remove_and_close
do_disconnect-Consistent r r' actions c (alive state s refs calls h e) k le =
    let told = calls ++ (wc_disconnected ∷ []) in
    let (refs', lt, run) = act_all_calm (r + 1) s (refs + 1) told actions k (omega arith) in
    rw (closed s, run)
      (drop_ref r (r + 1) _ (Consistent.idle disconnected refs' told refl lt) (omega arith))
do_disconnect-Consistent r r' actions c (idle state refs calls h e) k le =
    drop_ref r (r + 1) _ (Consistent.idle disconnected (refs + 1) calls refl (omega arith))
      (omega arith)

end_stream-Consistent :
    (r r' : ℕ) (actions : List Action) (c : WowConnection)
    → Consistent r' 0 c
    → IsCalm actions
    → releases actions + r ≤ r'
    → Consistent r 0 (end_stream actions c)
unfolding end_stream remove_and_close
end_stream-Consistent r r' actions c (alive state s refs calls h e) k le =
    let told = calls ++ (wc_disconnected ∷ []) in
    let (refs', lt, run) = act_all_calm r s refs told actions k (omega arith) in
    rw (closed s, run) (Consistent.idle disconnected refs' told refl lt)
end_stream-Consistent r r' actions c (idle state refs calls h e) k le =
    Consistent.idle disconnected refs calls refl (omega arith)

abbrev pub IsCalmEnd : Option (List Action) → Type 0
IsCalmEnd none = Unit
IsCalmEnd (some actions) = IsCalm actions

told_lem :
    (r r' : ℕ) (call : Call) (actions : List Action) (c : WowConnection)
    → Consistent r' 0 c
    → releases actions + r ≤ r'
    → Consistent r 0 (release_response_ref (notify call actions (acquire_response_ref c)))
told_lem r r' call actions c (alive state s refs calls h e) le = drop_response_ref r _ (
    act_all-Consistent r r' actions _ (Consistent.alive state s refs (calls ++ (call ∷ [])) h e) le)
told_lem r r' call actions c (idle state refs calls h e) le =
    drop_response_ref r _
      (act_all-Consistent r r' actions _ (Consistent.idle state refs (calls ++ (call ∷ [])) h e) le)

abbrev pub end_releases : Option (List Action) → ℕ
end_releases none = 0
end_releases (some actions) = releases actions

abbrev pub stream_releases : List (Bool × List Action) → ℕ
stream_releases [] = 0
stream_releases ((late, actions) ∷ rounds) = releases actions + stream_releases rounds

do_stream_reads-Consistent :
    (r r' : ℕ) (rounds : List (Bool × List Action)) (ending : Option (List Action))
    (c : WowConnection)
    → Consistent r' 0 c
    → IsCalmEnd ending
    → stream_releases rounds + end_releases ending + r ≤ r'
    → Consistent r 0 (do_stream_reads rounds ending c)
unfolding do_stream_reads
do_stream_reads-Consistent r r' [] none c h k le = fewer r r' c h (omega arith)
do_stream_reads-Consistent r r' [] (some actions) c h k le =
    end_stream-Consistent r r' actions c h k (omega arith)
do_stream_reads-Consistent r r' ((late, actions) ∷ rounds) ending c h k le =
    let c1 = release_response_ref (notify wc_data_ready actions (acquire_response_ref c)) in
    let left = stream_releases rounds + end_releases ending + r in
    let h1 = told_lem left r' wc_data_ready actions c h (omega arith) in
    elim (Bool-cases (is_disconnecting c1.conn_state || late)) [
      | inl e ↦ rw e (fewer r left c1 h1 (omega arith))
      | inr e ↦ rw e (do_stream_reads-Consistent r left rounds ending c1 h1 k (omega arith))
    ]

abbrev pub message_releases : List (List Action) → ℕ
message_releases [] = 0
message_releases (actions ∷ rounds) = releases actions + message_releases rounds

message_rounds-Consistent :
    (r r' : ℕ) (rounds : List (List Action)) (grown : Bool) (c : WowConnection)
    → Consistent r' 0 c
    → message_releases rounds + r ≤ r'
    → Consistent r 0 (message_rounds rounds grown c)
unfolding message_rounds
message_rounds-Consistent r r' [] true c h le =
    disconnect-Consistent c (fewer r r' c h (omega arith))
message_rounds-Consistent r r' [] false c h le = fewer r r' c h (omega arith)
message_rounds-Consistent r r' (actions ∷ rounds) grown c h le =
    let left = message_releases rounds + r in
    message_rounds-Consistent r left rounds grown _
      (told_lem left r' wc_message_ready actions c h (omega arith)) (omega arith)

message_calls-Consistent :
    (r r' : ℕ) (first : List Action) (rounds : List (List Action)) (grown : Bool)
    (c : WowConnection)
    → Consistent r' 0 c
    → releases first + message_releases rounds + r ≤ r'
    → Consistent r 0 (message_calls first rounds grown c)
unfolding message_calls
message_calls-Consistent r r' first rounds grown c h le =
    let left = message_releases rounds + r in
    message_rounds-Consistent r left rounds grown _
      (told_lem left r' notify_about_to_do_reads first c h (omega arith)) (omega arith)

-- While the owner is told that the connection has ended, it makes no new one.
abbrev pub IsCalmEvent : Event → Type 0
IsCalmEvent (stream_reads rounds ending) = IsCalmEnd ending
IsCalmEvent (disconnects actions) = IsCalm actions
IsCalmEvent other = Unit

-- The references that the owner releases in an event, at most.
abbrev pub event_releases : Event → ℕ
event_releases (writes readable err actions) = releases actions
event_releases (exceptions readable err actions) = releases actions
event_releases (stream_reads rounds ending) = stream_releases rounds + end_releases ending
event_releases (message_reads first rounds grown) = releases first + message_releases rounds
event_releases (disconnects actions) = releases actions
event_releases (owner_acts action) = releases (action ∷ [])

-- A service in a state of its own, with a reference of its own.
connecting-Consistent :
    (r r' : ℕ) (readable err : Bool) (actions : List Action) (c : WowConnection)
    → Consistent r' 0 c
    → releases actions + r ≤ r'
    → Consistent r 0 (
        release (
          if is_connecting c.conn_state
          then check_connect readable err actions (add_ref c)
          else add_ref c))
connecting-Consistent r r' readable err actions c h le =
    let h1 = take_ref r' c h in
    elim (Bool-cases (is_connecting c.conn_state)) [
      | inl e ↦ rw e (
          drop_ref r (r + 1) _
            (check_connect-Consistent (r + 1) (r' + 1) readable err actions (add_ref c) h1 e
              (omega arith))
            (omega arith))
      | inr e ↦ rw e (drop_ref r (r' + 1) (add_ref c) h1 (omega arith))
    ]

handle-Consistent :
    (r r' : ℕ) (e : Event) (c : WowConnection)
    → Consistent r' 0 c
    → IsCalmEvent e
    → event_releases e + r ≤ r'
    → Consistent r 0 (handle e c)
unfolding handle act_all
handle-Consistent r r' (writes readable err actions) c h k le =
    connecting-Consistent r r' readable err actions c h le
handle-Consistent r r' (exceptions readable err actions) c h k le =
    connecting-Consistent r r' readable err actions c h le
handle-Consistent r r' (stream_reads rounds ending) c h k le =
    let h1 = take_ref r' c h in
    elim (Bool-cases (is_connected c.conn_state)) [
      | inl e ↦ rw e (
          drop_ref r (r + 1) _
            (do_stream_reads-Consistent (r + 1) (r' + 1) rounds ending (add_ref c) h1 k
              (omega arith))
            (omega arith))
      | inr e ↦ rw e (drop_ref r (r' + 1) (add_ref c) h1 (omega arith))
    ]
handle-Consistent r r' (message_reads first rounds grown) c h k le =
    let h1 = take_ref r' c h in
    elim (Bool-cases (is_connected c.conn_state)) [
      | inl e ↦ rw e (
          drop_ref r (r + 1) _
            (message_calls-Consistent (r + 1) (r' + 1) first rounds grown (add_ref c) h1
              (omega arith))
            (omega arith))
      | inr e ↦ rw e (drop_ref r (r' + 1) (add_ref c) h1 (omega arith))
    ]
handle-Consistent r r' (disconnects actions) c h k le =
    do_disconnect-Consistent r r' actions c h k le
handle-Consistent r r' (owner_acts action) c h k le = act_all-Consistent r r' (action ∷ []) c h le

abbrev pub AreCalm : List Event → Type 0
AreCalm [] = Unit
AreCalm (e ∷ events) = IsCalmEvent e × AreCalm events

abbrev pub all_releases : List Event → ℕ
all_releases [] = 0
all_releases (e ∷ events) = event_releases e + all_releases events

-- After any sequence of services and of what the owner does, if it makes no new connection while it is
-- told that this one has ended, and the connection is held by more references than the owner releases: a
-- connection that is connecting, connected or disconnecting has a socket, which is its only open one, and
-- is in the list of the network; one that is initialized, disconnected or in error has none, none is open,
-- and it is not in the list; no other state is reached. It is held by a reference, and is not deleted;
-- its response is not in use, and each time that the code took or gave back the response, its assertion
-- held. This is so if all but the number of references was so at first.
pub handle_all-Consistent :
    (events : List Event) (c : WowConnection)
    → Consistent (all_releases events) 0 c
    → AreCalm events
    → Consistent 0 0 (handle_all events c)
unfolding handle_all
handle_all-Consistent [] c h k = h
handle_all-Consistent (e ∷ events) c h k =
    handle_all-Consistent events (handle e c)
      (handle-Consistent (all_releases events) (event_releases e + all_releases events) e c h k.0
        (omega arith))
      k.1
