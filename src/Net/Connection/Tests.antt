-- ===== src/Net/Connection/Tests.antt =====
-- Examples of connections.
use whoa.Base.{arith, ◌≡◌, refl, true, false, List, [], ◌∷◌, none, some}
use whoa.Net.Connection.Consistent.{Consistent}
use whoa.Net.Connection.Consistent.Services.{handle_all-Consistent}
use whoa.Net.Connection.{
  initialized, connecting, WowConnection, would_block, to_connect, to_disconnect, to_release, Event,
  writes, message_reads, disconnects, owner_acts, do_disconnect, handle_all, connected,
  wc_disconnected,
}

abbrev new_connection : WowConnection
new_connection = record {
  conn_state = initialized;
  sock = none;
  is_linked = false;
  ref_count = 1;
  is_deleted = false;
  response_ref = 0;
  asserts_hold = true;
  open_sockets = [];
  calls = [];
}

-- Of two references the owner releases one, as ClientLink::Shutdown does in WCDisconnected.
abbrev shared_connection : WowConnection
shared_connection = record new_connection { ref_count = 2 }

-- It connects, by the socket 5, gets a message, and is disconnected and released by its owner.
abbrev some_events : List Event
some_events =
    owner_acts (to_connect (some 5) would_block)
    ∷ writes true false []
    ∷ message_reads [] ((to_disconnect ∷ []) ∷ []) false
    ∷ disconnects (to_disconnect ∷ to_release ∷ [])
    ∷ []

handle_all-Consistent_example : Consistent 0 0 (handle_all some_events shared_connection)
handle_all-Consistent_example =
    handle_all-Consistent some_events shared_connection
      (Consistent.idle initialized 2 [] refl (omega arith))
      (tt, (tt, (tt, ((refl, (refl, tt)), tt))))

-- An owner that connects again, by the socket 6, while it is told of the end: the new socket is open, and
-- the connection has lost it.
lost_socket :
    do_disconnect (to_connect (some 6) would_block ∷ []) (record new_connection {
      conn_state = connected;
      sock = some 5;
      is_linked = true;
      open_sockets = 5 ∷ [];
    })
    ≡ record new_connection {
      conn_state = connecting;
      is_linked = true;
      open_sockets = 6 ∷ [];
      calls = wc_disconnected ∷ [];
    }
unfolding do_disconnect whoa.Net.Connection.act
lost_socket = refl
