-- ===== src/Net/Connection/Consistent.antt =====
-- Connections that hold what their state says.
pub mod Services
use whoa.Base.{
  ℕ, suc, ◌<◌, ◌≤◌, ◌+◌, ◌-◌, ◌≡◌, refl, arith, ◌==◌, ◌||◌, Bool, true, false, List, [], ◌∷◌, ◌++◌,
  Option, none, some, All, Bool-cases, inl, inr,
}
use whoa.Base.Removal.{remove}
use whoa.Net.Connection.{
  ConnState, initialized, connecting, connected, disconnected, disconnecting, error, Call,
  wc_cant_connect, wc_connected, wc_disconnected, WowConnection, ConnectResult, done_at_once,
  would_block, failed, is_connected, is_connecting, Action, to_connect, to_disconnect, to_release,
  Event, writes, exceptions, stream_reads, disconnects, owner_acts, remove_and_close, start_connect,
  disconnect, act, act_all, has_sock, add_ref, release, acquire_response_ref, release_response_ref,
  check_connect, do_disconnect, end_stream, do_stream_reads, is_disconnecting, notify,
  wc_data_ready, handle, handle_all,
}

-- The states in which a connection of the client has a socket, and those in which it has none.
abbrev pub is_alive : ConnState → Bool
is_alive connecting = true
is_alive connected = true
is_alive disconnecting = true
is_alive other = false

abbrev pub is_idle : ConnState → Bool
is_idle initialized = true
is_idle disconnected = true
is_idle error = true
is_idle other = false

-- With more references than so many, not deleted, and all assertions held: either the connection has a
-- socket, which is its only open one, and is in the list of the network; or it has none, none is open,
-- and it is not in the list.
pub data Consistent (r response_refs : ℕ) : WowConnection → Type 0 where
  alive :
      (state : ConnState) (s refs : ℕ) (calls : List Call)
      → is_alive state ≡ true
      → r < refs
      → Consistent r response_refs (record {
        conn_state = state;
        sock = some s;
        is_linked = true;
        ref_count = refs;
        is_deleted = false;
        asserts_hold = true;
        response_ref = response_refs;
        open_sockets = s ∷ [];
        calls = calls;
      })
  idle :
      (state : ConnState) (refs : ℕ) (calls : List Call)
      → is_idle state ≡ true
      → r < refs
      → Consistent r response_refs (record {
        conn_state = state;
        sock = none;
        is_linked = false;
        ref_count = refs;
        is_deleted = false;
        asserts_hold = true;
        response_ref = response_refs;
        open_sockets = [];
        calls = calls;
      })

pub fewer : {q : ℕ} (r r' : ℕ) (c : WowConnection) → Consistent r' q c → r ≤ r' → Consistent r q c
fewer r r' c (alive state s refs calls h e) le = Consistent.alive state s refs calls h (omega arith)
fewer r r' c (idle state refs calls h e) le = Consistent.idle state refs calls h (omega arith)

-- One reference less, of more than one.
pub drop_ref :
    {q : ℕ} (r r' : ℕ) (c : WowConnection) → Consistent r' q c → r < r' → Consistent r q (release c)
drop_ref r r' c (alive state s refs calls h e) lt =
    let held : (refs - 1 == 0) ≡ false = ground arith in
    rw held (Consistent.alive state s (refs - 1) calls h (omega arith))
drop_ref r r' c (idle state refs calls h e) lt =
    let held : (refs - 1 == 0) ≡ false = ground arith in
    rw held (Consistent.idle state (refs - 1) calls h (omega arith))

pub take_ref :
    {q : ℕ} (r : ℕ) (c : WowConnection) → Consistent r q c → Consistent (r + 1) q (add_ref c)
take_ref r c (alive state s refs calls h e) =
    Consistent.alive state s (refs + 1) calls h (omega arith)
take_ref r c (idle state refs calls h e) = Consistent.idle state (refs + 1) calls h (omega arith)

pub closed : (s : ℕ) → remove s (s ∷ []) ≡ []
closed s = let same : (s == s) ≡ true = ground arith in rw same refl

pub start_connect-Consistent :
    {r q : ℕ} (created : Option ℕ) (result : ConnectResult) (c : WowConnection)
    → Consistent r q c
    → Consistent r q (start_connect created result c)
unfolding start_connect remove_and_close
start_connect-Consistent none result c (alive state s refs calls h e) =
    rw (closed s) (Consistent.idle error refs calls refl e)
start_connect-Consistent (some t) done_at_once c (alive state s refs calls h e) =
    rw (closed s) (Consistent.alive connecting t refs calls refl e)
start_connect-Consistent (some t) would_block c (alive state s refs calls h e) =
    rw (closed s) (Consistent.alive connecting t refs calls refl e)
start_connect-Consistent (some t) failed c (alive state s refs calls h e) =
    rw (closed s, closed t) (Consistent.idle error refs calls refl e)
start_connect-Consistent none result c (idle state refs calls h e) =
    Consistent.idle error refs calls refl e
start_connect-Consistent (some t) done_at_once c (idle state refs calls h e) =
    Consistent.alive connecting t refs calls refl e
start_connect-Consistent (some t) would_block c (idle state refs calls h e) =
    Consistent.alive connecting t refs calls refl e
start_connect-Consistent (some t) failed c (idle state refs calls h e) =
    rw (closed t) (Consistent.idle error refs calls refl e)

pub disconnect-Consistent :
    {r q : ℕ} (c : WowConnection) → Consistent r q c → Consistent r q (disconnect c)
unfolding disconnect
disconnect-Consistent c (alive state s refs calls h e) = elim (Bool-cases (is_connected state)) [
  | inl f ↦ rw f (Consistent.alive disconnecting s refs calls refl e)
  | inr f ↦ rw f (Consistent.alive state s refs calls h e)
]
disconnect-Consistent c (idle state refs calls h e) = Consistent.idle state refs calls h e

-- How many references the owner releases.
abbrev pub releases : List Action → ℕ
releases [] = 0
releases (to_connect created result ∷ actions) = releases actions
releases (to_disconnect ∷ actions) = releases actions
releases (to_release ∷ actions) = suc (releases actions)

pub act_all-Consistent :
    {q : ℕ} (r r' : ℕ) (actions : List Action) (c : WowConnection)
    → Consistent r' q c
    → releases actions + r ≤ r'
    → Consistent r q (act_all actions c)
unfolding act_all act
act_all-Consistent r r' [] c h le = fewer r r' c h (omega arith)
act_all-Consistent r r' (to_connect created result ∷ actions) c h le =
    act_all-Consistent r r' actions (start_connect created result c)
      (start_connect-Consistent created result c h) le
act_all-Consistent r r' (to_disconnect ∷ actions) c h le =
    act_all-Consistent r r' actions (disconnect c) (disconnect-Consistent c h) le
act_all-Consistent r r' (to_release ∷ actions) c h le =
    act_all-Consistent r (r' - 1) actions (release c) (drop_ref (r' - 1) r' c h (omega arith))
      (omega arith)
