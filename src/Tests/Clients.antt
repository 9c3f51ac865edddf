-- ===== src/Tests/Clients.antt =====
-- Tests of the connector, the acceptor, the client and the server of gwcpp/net.
use cpptool_box.Base.{
  ℕ, ◌⊎◌, suc, ◌≡◌, refl, [], ◌∷◌, ◌++◌, none, some, true, arith, pos, Result, ok, err,
}
use cpptool_box.Event.Poller.{new_event, enable_reading, update_event}
use cpptool_box.Net.Connector
use cpptool_box.Net.Connector.{
  Dial, Connector, Attempt, opened, hands_over, fine, socket_error, new_connector, reset_event,
}
use cpptool_box.Net.Connector.Channel.{IsDialing, IsForgotten, handle_write-connects}
use cpptool_box.Net.Connector.Restart.{restart-resets}
use cpptool_box.Net.Acceptor
use cpptool_box.Net.Acceptor.{Listener}
use cpptool_box.Net.Acceptor.Stopping.{IsListening}
use cpptool_box.Net.Server.{TcpServer, new_server, new_connection_of, conn_name}
use cpptool_box.Net.Server.Names.{begins, accepts, reach-latest}
use cpptool_box.Net.Connection.{Session, new_connection, connect_finished}
use cpptool_box.Net.Client
use cpptool_box.Net.Client.{TcpClient, new_client}
use cpptool_box.Tests.{idle_poller, watching_poller, watching-IsValid}
use cpptool_box.Tests.Connections.{read_mask, write_mask, session}

abbrev idle_dial : Dial
idle_dial = record {
  connector = record new_connector { connect_cb = true };
  poller = idle_poller;
  resets = 0;
  effects = [];
}

-- The connector waits for descriptor 5 of event 0.
abbrev dialing : Dial
dialing = record {
  connector = record new_connector {
    state = Connector.connecting;
    event = some 0;
    connect_cb = true;
  };
  poller = watching_poller write_mask;
  resets = 0;
  effects = [];
}

dialing-IsDialing : IsDialing dialing 0 (pos 5)
unfolding new_connector new_event
dialing-IsDialing = record {
  waiting = refl;
  channel = refl;
  valid = watching-IsValid write_mask;
  descriptor = refl;
  entry = refl;
}

handle_write-connects_example :
    (e : Dial) × (Connector.handle_write fine (opened (pos 9) 4) dialing ≡ ok e)
    × (e.connector.state ≡ Connector.connected)
    × (e.effects ≡ dialing.effects ++ (hands_over ∷ []))
    × (e.resets ≡ suc dialing.resets)
    × IsForgotten dialing.poller e.poller (pos 5)
unfolding new_connector
handle_write-connects_example =
    handle_write-connects dialing 0 (pos 5) (opened (pos 9) 4) dialing-IsDialing refl

restart-resets_example :
    (e : Dial) × (Connector.handle_write socket_error (opened (pos 9) 4) dialing ≡ ok e)
    × IsDialing e 4 (pos 9)
    × (e.resets ≡ suc dialing.resets)
    × ((reset_event e).connector.event ≡ none)
    × ((reset_event e).poller.fd_event_maps (pos 9) ≡ some 4)
restart-resets_example =
    restart-resets dialing 0 4 (pos 5) (pos 9) dialing-IsDialing (λ k h. ground (arith, h)) refl

abbrev listening : Listener
listening = record {
  acceptor = record { state = Acceptor.started; event = some 0; new_connect_cb = true };
  poller = watching_poller read_mask;
  effects = [];
}

listening-IsListening : IsListening listening 0
unfolding new_event
listening-IsListening = record {
  running = refl;
  channel = refl;
  valid = watching-IsValid read_mask;
  entry = refl;
  added = refl;
  reading = refl;
}

abbrev server : TcpServer
server = new_server (49 ∷ []) (50 ∷ [])

abbrev taken : TcpServer → Result (TcpServer × Session) → TcpServer
taken s (ok (t, c)) = t
taken s (err e) = s

abbrev session_of : Session → Result (TcpServer × Session) → Session
session_of d (ok (t, c)) = c
session_of d (err e) = d

-- The server once event 2 has come in.
abbrev accepting : Result (TcpServer × Session)
accepting = new_connection_of server idle_poller 2

-- The server once event 3 has come in behind it.
abbrev accepting_next : Result (TcpServer × Session)
accepting_next = new_connection_of (taken server accepting) idle_poller 3

reach-latest_example :
    (((taken server accepting).connections ≡ [])
      ⊎ ((f : ℕ) × ((taken server accepting).connections
            ≡ (conn_name (new_server (49 ∷ []) (50 ∷ [])), f) ∷ [])))
    × ((taken (taken server accepting) accepting_next).connections
        ≡ (conn_name (new_server (49 ∷ []) (50 ∷ [])), 3) ∷ [])
unfolding new_server new_connection_of connect_finished enable_reading update_event new_event
    new_connection conn_name
reach-latest_example =
    reach-latest (49 ∷ []) (50 ∷ []) (taken server accepting)
      (taken (taken server accepting) accepting_next) idle_poller 3
      (session_of session accepting_next)
      (accepts server (taken server accepting) idle_poller 2 (session_of session accepting) begins
        refl)
      refl

abbrev client : TcpClient
client = record (new_client (49 ∷ []) (50 ∷ []) idle_poller) {
  state = Client.connected;
  recon_enable = true;
  close_cb = true;
}
