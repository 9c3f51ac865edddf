-- ===== src/Net/Connector.antt =====
-- gwcpp/net/Connector.cpp: the connector of a client. What the socket calls return is an argument.
pub mod Channel
pub mod Restart
use cpptool_box.Base.{
  ℕ, List, [], ◌∷◌, ◌++◌, Bool, true, false, Option, none, some, if◌then◌else◌, ℤ, Result, ok, err,
  undefined, ◌>>=◌, map_ok,
}
use cpptool_box.Event.Poller.{
  Poller, persist, new_event, set_event, enable_writing, disable_all, remove,
}
use cpptool_box.Net.{asserted}

pub data State : Type 0 where
  disconnected connecting connected : State

-- `event_` is null or names an event.
pub record Connector : Type 0 where
  pub state : State
  pub try_times : ℤ
  pub delay_sec : ℤ
  pub connect : Bool
  pub conn_forever : Bool
  pub event : Option ℕ
  pub connect_cb : Bool

-- A call of the callback with the socket, a call of `close` on it, and a line of the log.
pub data Effect : Type 0 where
  hands_over closes_socket logs : Effect

-- The connector, the poller of its loop, the number of `resetEvent` tasks in the queue of the loop, and
-- the effects so far.
pub record Dial : Type 0 where
  pub connector : Connector
  pub poller : Poller
  pub resets : ℕ
  pub effects : List Effect

-- What an attempt to connect meets: no socket, a refused connection, or a descriptor; then the event
-- that is allocated for it has the given name.
pub data Attempt : Type 0 where
  no_socket refused : Attempt
  opened : ℤ → ℕ → Attempt

-- What the connected socket reports: an error, a connection with itself, or neither.
pub data Report : Type 0 where
  socket_error self_connect fine : Report

-- The constructor.
unfoldable pub new_connector : Connector
new_connector = record {
  state = disconnected;
  try_times = ℤ.pos 0;
  delay_sec = ℤ.pos 0;
  connect = false;
  conn_forever = false;
  event = none;
  connect_cb = false;
}

abbrev pub with_state : State → Dial → Dial
with_state x d = record d { connector = record d.connector { state = x } }

abbrev pub emit : Effect → Dial → Dial
emit e d = record d { effects = d.effects ++ (e ∷ []) }

-- The branch of `start` behind a `connect` that returned 0.
abbrev pub opening : Dial → ℤ → ℕ → Result (Bool × Dial)
opening d fd id =
    map_ok
      (λ p. (
        true,
        record d {
          connector = record d.connector { event = some id; state = connecting };
          poller = p;
        },
      ))
      (asserted (enable_writing (set_event d.poller id (new_event fd persist)) id))

abbrev pub start_with : State → Attempt → Dial → Result (Bool × Dial)
start_with disconnected no_socket d = ok (false, d)
start_with disconnected refused d = ok (false, emit closes_socket d)
start_with disconnected (opened fd id) d = opening d fd id
start_with connecting a d = ok (false, d)
start_with connected a d = ok (false, d)

unfoldable pub start : Attempt → Dial → Result (Bool × Dial)
start a d = start_with d.connector.state a d

-- `reStart` drops what `start` returns.
unfoldable pub re_start : Attempt → Dial → Result Dial
re_start a d =
    map_ok (λ (b, e). e)
      (start a
        (record d { connector = record d.connector { state = disconnected; connect = true } }))

abbrev pub remove_channel : Option ℕ → Dial → Result Dial
remove_channel none d = err undefined
remove_channel (some id) d =
    map_ok (λ q. record d { poller = q; resets = ℕ.suc d.resets })
      (asserted (disable_all d.poller id) >>= λ p. asserted (remove p id))

-- `removeAndResetChannel`; the descriptor that it returns is used by nobody.
unfoldable pub remove_and_reset_channel : Dial → Result Dial
remove_and_reset_channel d = remove_channel d.connector.event d

-- `resetEvent`, as the loop runs it from its queue.
unfoldable pub reset_event : Dial → Dial
reset_event d = record d { connector = record d.connector { event = none } }

abbrev pub stop_in : State → Dial → Result Dial
stop_in connecting d = remove_and_reset_channel d
stop_in disconnected d = ok d
stop_in connected d = ok d

-- `state_ == State::Disconnected;` in its body is a comparison, and changes nothing.
unfoldable pub stop : Dial → Result Dial
stop d = stop_in d.connector.state (record d { connector = record d.connector { connect = false } })

unfoldable pub set_auto_reconnect : Bool → Dial → Dial
set_auto_reconnect enable d = record d { connector = record d.connector { conn_forever = enable } }

abbrev pub reported : Report → Attempt → Dial → Result Dial
reported socket_error a d = re_start a (emit logs d)
reported self_connect a d = re_start a (emit logs d)
reported fine a d = ok (
    if d.connector.connect_cb
    then emit hands_over (with_state connected d)
    else emit closes_socket (with_state connected d))

abbrev pub write_in : State → Report → Attempt → Dial → Result Dial
write_in connecting r a d = remove_and_reset_channel d >>= reported r a
write_in disconnected r a d = ok d
write_in connected r a d = ok d

-- `handleWrite`, with what the socket reports and what a new attempt would meet.
unfoldable pub handle_write : Report → Attempt → Dial → Result Dial
handle_write r a d = write_in d.connector.state r a d
