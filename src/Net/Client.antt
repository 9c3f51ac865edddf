-- ===== src/Net/Client.antt =====
-- gwcpp/net/TcpClient.cpp: a client, its connector and its connection.
pub mod States
use cpptool_box.Base.{
  ℕ, List, [], ◌∷◌, ◌++◌, Bool, true, false, ◌&&◌, Option, none, some, if◌then◌else◌, take, Result,
  ok, ◌>>=◌, map_ok,
}
use cpptool_box.Event.Poller.{Poller}
use cpptool_box.Net.Connection.{
  TcpConnection, Session, new_connection, connect_finished, disconnect,
}
use cpptool_box.Net.Connector
use cpptool_box.Net.Connector.{Dial, Connector, Attempt}

pub data State : Type 0 where
  no_state inited connecting connected : State

-- A call of the close callback, with the pointer that it gets.
pub data Effect : Type 0 where
  closes : Option ℕ → Effect

-- `connection` is null or the current connection; `disconnects` holds the events of the connections
-- whose `disconnect` is in the queue of the loop. `dial` has the connector and the poller.
pub record TcpClient : Type 0 where
  pub state : State
  pub ip : List ℕ
  pub port : List ℕ
  pub conn_id : List ℕ
  pub connection : Option TcpConnection
  pub connected_cb : Bool
  pub receive_cb : Bool
  pub close_cb : Bool
  pub recon_enable : Bool
  pub dial : Dial
  pub disconnects : List ℕ
  pub effects : List Effect

-- The constructor.
unfoldable pub new_client : List ℕ → List ℕ → Poller → TcpClient
new_client ip port p = record {
  state = inited;
  ip = ip;
  port = port;
  conn_id = 49 ∷ [];
  connection = none;
  connected_cb = false;
  receive_cb = false;
  close_cb = false;
  recon_enable = false;
  dial = record {
    connector = record Connector.new_connector { connect_cb = true };
    poller = p;
    resets = 0;
    effects = [];
  };
  disconnects = [];
  effects = [];
}

unfoldable pub start : Attempt → TcpClient → Result (Bool × TcpClient)
start a c =
    map_ok (λ (b, d). (b, record c { state = connecting; dial = d })) (Connector.start a c.dial)

abbrev pub stop_connector : TcpClient → Result TcpClient
stop_connector c = map_ok (λ d. record c { dial = d }) (Connector.stop c.dial)

-- `connection_->disconnect()`, if there is a connection.
abbrev pub drop : Option TcpConnection → TcpClient → Result TcpClient
drop none c = ok c
drop (some k) c =
    map_ok (λ s. record c { connection = some s.conn; dial = record c.dial { poller = s.poller } })
      (disconnect (record { conn = k; poller = c.dial.poller; effects = [] }))

abbrev pub stop_in : State → TcpClient → Result TcpClient
stop_in connecting c = stop_connector c
stop_in connected c = stop_connector c >>= λ d. drop d.connection d
stop_in no_state c = ok c
stop_in inited c = ok c

unfoldable pub stop : TcpClient → Result TcpClient
stop c = map_ok (λ (d : TcpClient). record d { state = inited }) (stop_in c.state c)

unfoldable pub set_auto_reconnect : Bool → TcpClient → TcpClient
set_auto_reconnect enable c = record c { recon_enable = enable }

-- "%s-%d" of the address and the number, cut to the 63 bytes that fit into `buf`.
unfoldable pub conn_name : TcpClient → List ℕ
conn_name c = take 63 ((c.ip ++ c.port) ++ (45 ∷ c.conn_id))

-- `newConnection`, for a socket whose event is `e`.
unfoldable pub new_connection_of : TcpClient → ℕ → Result (TcpClient × Session)
new_connection_of c e =
    map_ok
      (λ s. (
        record c {
          state = connected;
          connection = some s.conn;
          dial = record c.dial { poller = s.poller };
        },
        s,
      ))
      (connect_finished (record {
        conn = record (new_connection (conn_name c) e) {
          connected_cb = c.connected_cb;
          receive_cb = c.receive_cb;
          close_cb = true;
        };
        poller = c.dial.poller;
        effects = [];
      }))

abbrev pub is_connected : State → Bool
is_connected connected = true
is_connected no_state = false
is_connected inited = false
is_connected connecting = false

-- `connection_` is null by the time the callback gets it.
abbrev pub call_close : TcpClient → TcpClient
call_close c = if c.close_cb then record c { effects = c.effects ++ (closes none ∷ []) } else c

abbrev pub redial : Bool → Attempt → TcpClient → Result TcpClient
redial true a c = map_ok (λ k. record c { dial = k }) (Connector.re_start a c.dial)
redial false a c = ok c

abbrev pub lost : TcpClient → ℕ → TcpClient
lost c e = record c { connection = none; disconnects = c.disconnects ++ (e ∷ []) }

-- `removeConnection`, the close callback of the connection, with what a new attempt would meet.
unfoldable pub remove_connection : TcpClient → ℕ → Attempt → Result TcpClient
remove_connection c e a =
    map_ok call_close (redial (c.recon_enable && is_connected c.state) a (lost c e))
