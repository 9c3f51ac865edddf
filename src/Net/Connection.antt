-- ===== src/Net/Connection.antt =====
-- gwcpp/net/TcpConnection.cpp: a connection, its event in the poller, and its two buffers.
pub mod Receive
pub mod Queue
pub mod Sent
pub mod Close
use cpptool_box.Base.{
  List, [], ◌∷◌, ◌++◌, ℕ, Bool, true, false, if◌then◌else◌, ◌||◌, ℤ, pos, eq_ℤ, length, take,
  to_size, Result, ok, err, assertion, ◌>>=◌, map_ok,
}
use cpptool_box.ByteBuf.Data.{ByteBuf, new_data}
use cpptool_box.ByteBuf.Index.{clear, readable_bytes}
use cpptool_box.ByteBuf.Bytes.{write_bytes, write_bytes_buf, read_bytes}
use cpptool_box.Event.Poller.{
  Poller, FdEvent, is_writing, enable_reading, enable_writing, disable_writing, disable_all, remove,
}
use cpptool_box.Net.{asserted}

pub data State : Type 0 where
  disconnected connecting connected disconnecting : State

-- `event` names the event of the socket's descriptor; a callback is present or empty.
pub record TcpConnection : Type 0 where
  pub state : State
  pub name : List ℕ
  pub event : ℕ
  pub read_buffer : ByteBuf
  pub write_buffer : ByteBuf
  pub connected_cb : Bool
  pub receive_cb : Bool
  pub close_cb : Bool

-- A call of a callback with its bytes, a call of `send` on the socket, and a line of the log.
pub data Effect : Type 0 where
  connects : Effect
  receives : List ℕ → Effect
  closes : Effect
  transmits : List ℕ → Effect
  logs : Effect

-- The connection, the poller of its loop, and the effects so far.
pub record Session : Type 0 where
  pub conn : TcpConnection
  pub poller : Poller
  pub effects : List Effect

-- What `recv` returns: some bytes, the end of the stream, or an error.
pub data Received : Type 0 where
  bytes : List ℕ → Received
  ended failed : Received

abbrev pub emit : Effect → Session → Session
emit e s = record s { effects = s.effects ++ (e ∷ []) }

-- `if (cb) cb(…)`.
abbrev pub calling : Bool → Effect → Session → Session
calling cb e s = if cb then emit e s else s

abbrev pub with_state : State → Session → Session
with_state x s = record s { conn = record s.conn { state = x } }

abbrev pub with_poller : Session → Poller → Session
with_poller s p = record s { poller = p }

abbrev pub with_write_buffer : Session → ByteBuf → Session
with_write_buffer s b = record s { conn = record s.conn { write_buffer = b } }

abbrev pub is_connected : State → Bool
is_connected connected = true
is_connected disconnected = false
is_connected connecting = false
is_connected disconnecting = false

-- The constructor: the state, the name, and two empty buffers.
unfoldable pub new_connection : List ℕ → ℕ → TcpConnection
new_connection name event = record {
  state = connecting;
  name = name;
  event = event;
  read_buffer = new_data;
  write_buffer = new_data;
  connected_cb = false;
  receive_cb = false;
  close_cb = false;
}

-- `if (!event_->isWriting()) event_->enableWriting();`
abbrev pub wants_write : Session → Result Session
wants_write s =
    if is_writing (s.poller.event s.conn.event)
    then ok s
    else map_ok (with_poller s) (asserted (enable_writing s.poller s.conn.event))

-- `send(const void*, int)`.
unfoldable pub send : Session → List ℕ → ℤ → Result Session
send s message len =
    if is_connected s.conn.state
    then (wants_write s >>= λ t.
        map_ok (with_write_buffer t) (write_bytes t.conn.write_buffer message len))
    else ok s

-- `send(ByteBuf&)`.
unfoldable pub send_buf : Session → ByteBuf → Result Session
send_buf s message =
    if is_connected s.conn.state
    then map_ok (λ t. with_write_buffer t (write_bytes_buf t.conn.write_buffer message))
        (wants_write s)
    else ok s

abbrev pub removes_event : Session → Result Session
removes_event s = map_ok (with_poller s) (asserted (remove s.poller s.conn.event))

abbrev pub disables : Session → Result Session
disables s = map_ok (with_poller s) (asserted (disable_all s.poller s.conn.event))

unfoldable pub disconnect : Session → Result Session
disconnect s =
    if is_connected s.conn.state
    then disables (with_state connecting s) >>= removes_event
    else removes_event s

-- `connectFinished`: the event is never null.
abbrev pub finish_connecting : Session → Result Session
finish_connecting s =
    map_ok (λ p. calling s.conn.connected_cb connects (with_poller s p))
      (asserted (enable_reading s.poller s.conn.event))

abbrev pub connect_in : State → Session → Result Session
connect_in connecting s = finish_connecting (with_state connected s)
connect_in disconnected s = ok (emit logs s)
connect_in connected s = ok (emit logs s)
connect_in disconnecting s = ok (emit logs s)

unfoldable pub connect_finished : Session → Result Session
connect_finished s = connect_in s.conn.state s

-- `curr_write` is not read, so what the socket did with the bytes changes nothing.
abbrev pub write_out : Session → ByteBuf × ByteBuf → Result Session
write_out s (buf, rest) =
    let t =
      emit (transmits (take (to_size (readable_bytes buf)) buf.origin_data))
        (with_write_buffer s rest) in
    if eq_ℤ (readable_bytes rest) (pos 0)
    then map_ok (with_poller t) (asserted (disable_writing t.poller t.conn.event))
    else ok t

unfoldable pub handle_write : Session → Result Session
handle_write s =
    if is_connected s.conn.state
    then (if is_writing (s.poller.event s.conn.event)
        then read_bytes s.conn.write_buffer (readable_bytes s.conn.write_buffer) >>= write_out s
        else ok s)
    else ok (with_write_buffer s (clear s.conn.write_buffer))

abbrev pub close_event : Session → Result Session
close_event s = map_ok (calling s.conn.close_cb closes) (disables (with_state disconnected s))

abbrev pub close_in : State → Session → Result Session
close_in connected s = close_event s
close_in disconnecting s = close_event s
close_in disconnected s = err assertion
close_in connecting s = err assertion

unfoldable pub handle_close : Session → Result Session
handle_close s = close_in s.conn.state s

unfoldable pub handle_error : Session → Session
handle_error s = emit logs s

-- The callback reads `readableBytes()` bytes from `data()`; then the buffer is cleared.
abbrev pub read_in : Session → ByteBuf → Session
read_in s b =
    let t =
      calling s.conn.receive_cb (receives (take (to_size (readable_bytes b)) b.origin_data)) s in
    record t { conn = record t.conn { read_buffer = clear b } }

unfoldable pub handle_read : Session → Received → Result Session
handle_read s (bytes buf) =
    map_ok (read_in s) (write_bytes s.conn.read_buffer buf (pos (length buf)))
handle_read s ended = handle_close s
handle_read s failed = ok (handle_error s)
