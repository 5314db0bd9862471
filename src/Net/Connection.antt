-- ===== src/Net/Connection.antt =====
-- src/net/connection/WowConnection.cpp: the states of a connection of the client. What the system's calls
-- find, and what the owner does in the calls it gets, are arguments. The locks are not here, nor what the
-- platform's loop keeps (PlatformChangeState, PlatformAdd, PlatformRemove).
pub mod Consistent
mod Tests
use whoa.Base.{
  ℕ, ◌+◌, ◌-◌, not, ◌&&◌, ◌||◌, ◌==◌, if◌then◌else◌, Bool, true, false, List, [], ◌∷◌, ◌++◌, Option,
  none, some,
}
use whoa.Base.Removal.{remove}

-- WOW_CONN_STATE
pub data ConnState : Type 0 where
  uninitialized initialized connecting listening accepted connected disconnected : ConnState
  disconnecting error : ConnState

-- The calls of WowConnectionResponse.
pub data Call : Type 0 where
  wc_cant_connect wc_connected wc_disconnected wc_data_ready : Call
  notify_about_to_do_reads wc_message_ready : Call

-- m_connState, m_sock (none for -1), whether m_netlink is linked, m_refCount, m_responseRef, whether it is
-- deleted, and whether all assertions on m_responseRef held; the sockets of this connection that the
-- process has not closed; and the calls of its owner, oldest first.
pub record WowConnection : Type 0 where
  pub conn_state : ConnState
  pub sock : Option ℕ
  pub is_linked : Bool
  pub ref_count : ℕ
  pub response_ref : ℕ
  pub is_deleted : Bool
  pub asserts_hold : Bool
  pub open_sockets : List ℕ
  pub calls : List Call

abbrev pub is_connecting : ConnState → Bool
is_connecting connecting = true
is_connecting other = false

abbrev pub is_connected : ConnState → Bool
is_connected connected = true
is_connected other = false

abbrev pub is_listening : ConnState → Bool
is_listening listening = true
is_listening other = false

abbrev pub has_sock : Option ℕ → Bool
has_sock none = false
has_sock (some s) = true

abbrev pub close_socket : Option ℕ → List ℕ → List ℕ
close_socket none open_sockets = open_sockets
close_socket (some s) open_sockets = remove s open_sockets

-- `SetState`
abbrev pub set_state : ConnState → WowConnection → WowConnection
set_state state c = record c { conn_state = state }

-- `WowConnectionNet::Remove` and the closing of the socket.
pub remove_and_close : WowConnection → WowConnection
remove_and_close c = record c {
  is_linked = false;
  open_sockets = close_socket c.sock c.open_sockets;
}

abbrev pub add_ref : WowConnection → WowConnection
add_ref c = record c { ref_count = c.ref_count + 1 }

abbrev pub release : WowConnection → WowConnection
release c =
    let refs = c.ref_count - 1 in
    record c { ref_count = refs; is_deleted = c.is_deleted || refs == 0 }

abbrev pub acquire_response_ref : WowConnection → WowConnection
acquire_response_ref c = record c {
  response_ref = c.response_ref + 1;
  asserts_hold = c.asserts_hold && (c.response_ref == 0 || is_listening c.conn_state);
}

abbrev pub release_response_ref : WowConnection → WowConnection
release_response_ref c = record c {
  response_ref = c.response_ref - 1;
  asserts_hold = c.asserts_hold && not (c.response_ref == 0);
}

-- What connect says: it is done, to be waited for, or has failed.
pub data ConnectResult : Type 0 where
  done_at_once would_block failed : ConnectResult

-- `StartConnect`, with the socket that CreateSocket makes, if it does.
pub start_connect : Option ℕ → ConnectResult → WowConnection → WowConnection
unfolding remove_and_close
start_connect created result c =
    let c0 =
      if has_sock c.sock
      then record c {
        is_linked = false;
        open_sockets = close_socket c.sock c.open_sockets;
        sock = none;
      }
      else c in
    elim created [
      | none ↦ set_state error c0
      | some s ↦
          let c1 =
            set_state connecting
              (record c0 { sock = some s; open_sockets = s ∷ c0.open_sockets; is_linked = true }) in
          elim result [
            | done_at_once ↦ c1
            | would_block ↦ c1
            | failed ↦ set_state error (record (remove_and_close c1) { sock = none })
          ]
    ]

-- `Disconnect`
pub disconnect : WowConnection → WowConnection
disconnect c = if has_sock c.sock && is_connected c.conn_state then set_state disconnecting c else c

-- What the owner can do in a call, or at any other time.
pub data Action : Type 0 where
  to_connect : Option ℕ → ConnectResult → Action
  to_disconnect : Action
  to_release : Action

pub act : Action → WowConnection → WowConnection
unfolding start_connect disconnect
act (to_connect created result) c = start_connect created result c
act to_disconnect c = disconnect c
act to_release c = release c

pub act_all : List Action → WowConnection → WowConnection
act_all [] c = c
act_all (a ∷ actions) c = act_all actions (act a c)

abbrev pub notify : Call → List Action → WowConnection → WowConnection
notify call actions c = act_all actions (record c { calls = c.calls ++ (call ∷ []) })

-- `CheckConnect`: whether the option is read, and whether it is an error.
pub check_connect : Bool → Bool → List Action → WowConnection → WowConnection
unfolding act_all remove_and_close
check_connect readable err actions c =
    if not readable
    then c
    else if err
    then release (
        release_response_ref (
          notify wc_cant_connect actions (
            acquire_response_ref
              (add_ref (set_state disconnected (record (remove_and_close c) { sock = none }))))))
    else release (
        release_response_ref
          (notify wc_connected actions (acquire_response_ref (add_ref (set_state connected c)))))

-- `DoDisconnect`; the socket is taken away behind the call.
pub do_disconnect : List Action → WowConnection → WowConnection
unfolding act_all remove_and_close
do_disconnect actions c =
    let c0 = if has_sock c.sock then remove_and_close c else c in
    let c1 = acquire_response_ref (add_ref (set_state disconnected c0)) in
    let c2 = if has_sock c1.sock then notify wc_disconnected actions c1 else c1 in
    release (release_response_ref (record c2 { sock = none }))

-- The end of DoStreamReads, when the other side has closed or a read has failed.
pub end_stream : List Action → WowConnection → WowConnection
unfolding act_all remove_and_close
end_stream actions c =
    let c1 = set_state disconnected (acquire_response_ref (remove_and_close c)) in
    let c2 = if has_sock c1.sock then notify wc_disconnected actions c1 else c1 in
    release_response_ref (record c2 { sock = none })

abbrev pub is_disconnecting : ConnState → Bool
is_disconnecting disconnecting = true
is_disconnecting other = false

-- `DoStreamReads`: for each time that bytes are read, whether it is late by then, and what the owner does
-- when it gets them; and what follows when nothing is read, if the connection is to be ended.
pub do_stream_reads :
    List (Bool × List Action) → Option (List Action) → WowConnection → WowConnection
unfolding end_stream act_all
do_stream_reads [] none c = c
do_stream_reads [] (some actions) c = end_stream actions c
do_stream_reads ((late, actions) ∷ rounds) ending c =
    let c1 = release_response_ref (notify wc_data_ready actions (acquire_response_ref c)) in
    let rest = do_stream_reads rounds ending c1 in
    if is_disconnecting c1.conn_state || late then c1 else rest

-- The rounds of DoMessageReads that deliver a message, with what the owner does then; and whether the
-- buffer grows over its limit in the end.
pub message_rounds : List (List Action) → Bool → WowConnection → WowConnection
unfolding act_all disconnect
message_rounds [] grown c = if grown then disconnect c else c
message_rounds (actions ∷ rounds) grown c =
    message_rounds rounds grown
      (release_response_ref (notify wc_message_ready actions (acquire_response_ref c)))

-- The calls of `DoMessageReads`; its buffer is that of Net/MessageReads.
pub message_calls : List Action → List (List Action) → Bool → WowConnection → WowConnection
unfolding act_all message_rounds
message_calls first rounds grown c =
    message_rounds rounds grown
      (release_response_ref (notify notify_about_to_do_reads first (acquire_response_ref c)))

-- The calls of WowConnectionNet::Service, and the owner's.
pub data Event : Type 0 where
  writes exceptions : Bool → Bool → List Action → Event
  stream_reads : List (Bool × List Action) → Option (List Action) → Event
  message_reads : List Action → List (List Action) → Bool → Event
  disconnects : List Action → Event
  owner_acts : Action → Event

-- `DoWrites`, `DoExceptions`, `DoReads` of a stream and of messages, and `DoDisconnect`.
pub handle : Event → WowConnection → WowConnection
unfolding check_connect do_stream_reads message_calls do_disconnect act
handle (writes readable err actions) c =
    let c1 = add_ref c in
    release (if is_connecting c1.conn_state then check_connect readable err actions c1 else c1)
handle (exceptions readable err actions) c =
    let c1 = add_ref c in
    release (if is_connecting c1.conn_state then check_connect readable err actions c1 else c1)
handle (stream_reads rounds ending) c =
    let c1 = add_ref c in
    release (if is_connected c1.conn_state then do_stream_reads rounds ending c1 else c1)
handle (message_reads first rounds grown) c =
    let c1 = add_ref c in
    release (if is_connected c1.conn_state then message_calls first rounds grown c1 else c1)
handle (disconnects actions) c = do_disconnect actions c
handle (owner_acts action) c = act action c

pub handle_all : List Event → WowConnection → WowConnection
handle_all [] c = c
handle_all (e ∷ events) c = handle_all events (handle e c)
