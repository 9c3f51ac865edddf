-- ===== src/Net/Server.antt =====
-- gwcpp/net/TcpServer.cpp: the connections of a server, by name.
pub mod Names
use cpptool_box.Base.{
  ℕ, suc, zero, ◌+◌, ◌/◌, ◌%◌, List, [], ◌∷◌, ◌++◌, Bool, true, false, ◌&&◌, ◌==◌, ltb,
  if◌then◌else◌, take, Result, ok, err, ◌>>=◌, map_ok,
}
use cpptool_box.Event.Poller.{Poller}
use cpptool_box.Net.Connection
use cpptool_box.Net.Connection.{TcpConnection, Session, new_connection, connect_finished}
use cpptool_box.Net.Acceptor
use cpptool_box.Net.Acceptor.{Listener}

-- `connections_`, with the event of a connection in place of the pointer to it.
pub record TcpServer : Type 0 where
  pub started : Bool
  pub ip : List ℕ
  pub port : List ℕ
  pub conn_id : List ℕ
  pub connections : List (List ℕ × ℕ)
  pub conn_cb : Bool
  pub recv_cb : Bool
  pub close_cb : Bool
  -- The `disconnect` tasks in the queue of the loop, and the calls of the close callback.
  pub disconnects : List ℕ
  pub closed : List ℕ

-- The constructor: `connId_` is 1, written "1" in a name.
unfoldable pub new_server : List ℕ → List ℕ → TcpServer
new_server ip port = record {
  started = false;
  ip = ip;
  port = port;
  conn_id = 49 ∷ [];
  connections = [];
  conn_cb = false;
  recv_cb = false;
  close_cb = false;
  disconnects = [];
  closed = [];
}

-- `start`: the acceptor is started.
unfoldable pub start :
    TcpServer → Acceptor.Attempt → Listener → Result (Bool × TcpServer × Listener)
start s a l =
    map_ok (λ (b, k). if b then (true, record s { started = true }, k) else (false, s, k))
      (Acceptor.start a l)

abbrev pub eq_bytes : List ℕ → List ℕ → Bool
eq_bytes [] [] = true
eq_bytes [] (y ∷ ys) = false
eq_bytes (x ∷ xs) [] = false
eq_bytes (x ∷ xs) (y ∷ ys) = (x == y) && eq_bytes xs ys

-- `connections_[name] = conn` and `connections_.erase(name)`.
abbrev pub put : List ℕ → ℕ → List (List ℕ × ℕ) → List (List ℕ × ℕ)
put name e [] = (name, e) ∷ []
put name e ((k, f) ∷ m) = if eq_bytes name k then (name, e) ∷ m else (k, f) ∷ put name e m

abbrev pub erase : List ℕ → List (List ℕ × ℕ) → List (List ℕ × ℕ)
erase name [] = []
erase name ((k, f) ∷ m) = if eq_bytes name k then m else (k, f) ∷ erase name m

-- "%s-%d" of "ip-port" and the number, cut to the 63 bytes that fit into `buf`.
unfoldable pub conn_name : TcpServer → List ℕ
conn_name s = take 63 ((s.ip ++ (45 ∷ s.port)) ++ (45 ∷ s.conn_id))

-- `newConnection`, for a socket whose event is `e`: the connection is entered, its callbacks are set,
-- and it is finished.
unfoldable pub new_connection_of : TcpServer → Poller → ℕ → Result (TcpServer × Session)
new_connection_of s p e =
    map_ok (λ t. (record s { connections = put (conn_name s) e s.connections }, t))
      (connect_finished (record {
        conn = record (new_connection (conn_name s) e) {
          connected_cb = s.conn_cb;
          receive_cb = s.recv_cb;
          close_cb = true;
        };
        poller = p;
        effects = [];
      }))

-- `removeConnection`, the close callback of every connection.
unfoldable pub remove_connection : TcpServer → TcpConnection → TcpServer
remove_connection s c = record s {
  connections = erase c.name s.connections;
  disconnects = s.disconnects ++ (c.event ∷ []);
  closed = if s.close_cb then s.closed ++ (c.event ∷ []) else s.closed;
}
