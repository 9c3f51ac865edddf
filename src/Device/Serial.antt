-- ===== src/Device/Serial.antt =====
-- gwcpp/device/SerialDevice.cpp and IODevice.h: a serial device, its event and its two buffers. What the
-- system calls return is an argument.
pub mod Read
pub mod Closing
use cpptool_box.Base.{
  ℕ, ◌+◌, ◌-◌, List, [], ◌∷◌, ◌++◌, Bool, true, false, Option, none, some, if◌then◌else◌, ltb,
  length, take, drop, ℤ, pos, negsuc, eq_ℤ, ltb_ℤ, to_size, to_int32, Result, ok, err, undefined,
  ◌>>=◌, map_ok,
}
use cpptool_box.ByteBuf.Data.{ByteBuf, new_data}
use cpptool_box.ByteBuf.Index.{clear, readable_bytes}
use cpptool_box.ByteBuf.Bytes.{write_bytes, read_bytes}
use cpptool_box.Event.Poller.{
  Poller, persist, new_event, set_event, enable_reading, enable_writing, disable_writing,
  disable_all,
}
use cpptool_box.Net.{asserted}

-- IODevice::State.
pub data State : Type 0 where
  k_none k_inited k_running : State

-- A call of the read callback, a call of `write` on the descriptor, and a line of the log.
pub data Effect : Type 0 where
  reads_out : List ℕ → Effect
  puts : List ℕ → Effect
  logs : Effect

-- `serial_event` is null or names an event.
pub record SerialDevice : Type 0 where
  pub state : State
  pub fd : ℤ
  pub serial_event : Option ℕ
  pub read_buffer : ByteBuf
  pub write_buffer : ByteBuf
  pub read_callback : Bool
  pub poller : Poller
  pub effects : List Effect

-- The constructor.
unfoldable pub new_device : Poller → SerialDevice
new_device p = record {
  state = k_none;
  fd = negsuc 0;
  serial_event = none;
  read_buffer = new_data;
  write_buffer = new_data;
  read_callback = false;
  poller = p;
  effects = [];
}

abbrev pub emit : Effect → SerialDevice → SerialDevice
emit e s = record s { effects = s.effects ++ (e ∷ []) }

abbrev pub with_poller : SerialDevice → Poller → SerialDevice
with_poller s p = record s { poller = p }

-- `CHECK_DELETE_RESET_OBJ(serialEvent_)`: nothing takes the event out of the poller.
unfoldable pub cleanup : SerialDevice → SerialDevice
cleanup s = record s { serial_event = none }

abbrev pub init_in : State → ℤ → ℕ → Bool → SerialDevice → Bool × SerialDevice
init_in k_none fd id uart s =
    let t : SerialDevice = record s {
      fd = fd;
      serial_event = some id;
      poller = set_event s.poller id (new_event fd persist);
    } in
    if uart then (true, record t { state = k_inited }) else (false, emit logs t)
init_in k_inited fd id uart s = (false, s)
init_in k_running fd id uart s = (false, s)

-- `init`, with the descriptor that is opened, the event that is allocated, and what `uartSet` returns.
unfoldable pub init : ℤ → ℕ → Bool → SerialDevice → Bool × SerialDevice
init fd id uart s = init_in s.state fd id uart (cleanup s)

-- A call through `serialEvent_`.
abbrev pub with_event : (Poller → ℕ → Option Poller) → Option ℕ → SerialDevice → Result SerialDevice
with_event f none s = err undefined
with_event f (some id) s = map_ok (with_poller s) (asserted (f s.poller id))

abbrev pub start_in : State → SerialDevice → Result (Bool × SerialDevice)
start_in k_inited s =
    map_ok (λ (t : SerialDevice). (true, record t { state = k_running }))
      (with_event enable_reading s.serial_event s)
start_in k_none s = ok (false, emit logs s)
start_in k_running s = ok (false, s)

unfoldable pub start : SerialDevice → Result (Bool × SerialDevice)
start s = start_in s.state s

abbrev pub stop_in : State → SerialDevice → Result SerialDevice
stop_in k_running s = with_event disable_all s.serial_event s
stop_in k_none s = ok (emit logs s)
stop_in k_inited s = ok (emit logs s)

-- The state stays as it is.
unfoldable pub stop : SerialDevice → Result SerialDevice
stop s = stop_in s.state s

abbrev pub reset_state : SerialDevice → SerialDevice
reset_state s = record s { state = k_none }

unfoldable pub close : SerialDevice → Result SerialDevice
close s = map_ok (λ t. reset_state (cleanup t)) (stop s)

-- What the first `readv` into the two buffers of 1024 bytes returns.
pub data Received : Type 0 where
  bytes : List ℕ → Received
  ended failed : Received

-- The first round of the loop: the bytes of the two buffers.
abbrev pub write_both : ByteBuf → List ℕ → Result ByteBuf
write_both b t =
    if ltb 1024 (length t)
    then (write_bytes b (take 1024 t) (pos 1024) >>= λ c.
        write_bytes c (drop 1024 t) (to_int32 (pos (length t - 1024))))
    else write_bytes b t (pos (length t))

-- The later rounds: `rsize = fd_.readv(rbuf, 2) > 0` makes `rsize` 1 while there is something to read.
abbrev pub write_rest : ByteBuf → List (List ℕ) → Result ByteBuf
write_rest b [] = ok b
write_rest b (t ∷ ts) = write_bytes b t (pos 1) >>= λ c. write_rest c ts

abbrev pub deliver : SerialDevice → ByteBuf → SerialDevice
deliver s b =
    record (if s.read_callback
      then emit (reads_out (take (to_size (readable_bytes b)) b.origin_data)) s
      else s) { read_buffer = clear b }

abbrev pub cleared : SerialDevice → SerialDevice
cleared s = record s { read_buffer = clear s.read_buffer }

-- `onReadCallBack`, with the results of the calls of `readv` up to the first that returns nothing.
unfoldable pub on_read_callback : Received → List (List ℕ) → SerialDevice → Result SerialDevice
on_read_callback (bytes t) rest s =
    map_ok (deliver s) (write_both s.read_buffer t >>= λ b. write_rest b rest)
on_read_callback ended rest s = ok (cleared (emit logs s))
on_read_callback failed rest s = ok (cleared (emit logs s))

abbrev pub with_write_buffer : SerialDevice → ByteBuf → SerialDevice
with_write_buffer s b = record s { write_buffer = b }

-- `sizeof(writeBuffer_.readableBytes())` is the size of an `int32_t`, so that four bytes are written
-- from `data()`, which has the bytes of the string and its terminating zero.
abbrev pub put_four : SerialDevice → ByteBuf × ByteBuf → Result SerialDevice
put_four s (buf, rest) =
    if ltb (length buf.origin_data + 1) 4
    then err undefined
    else ok (emit (puts (take 4 (buf.origin_data ++ (0 ∷ [])))) (with_write_buffer s rest))

abbrev pub log_failure : ℤ → SerialDevice → SerialDevice
log_failure wsize s = if ltb_ℤ wsize (pos 0) then emit logs s else s

-- `onWriteCallBack`, with what `write` returns.
unfoldable pub on_write_callback : ℤ → SerialDevice → Result SerialDevice
on_write_callback wsize s =
    if eq_ℤ (readable_bytes s.write_buffer) (pos 0)
    then with_event disable_writing s.serial_event s
    else map_ok (log_failure wsize)
        (read_bytes s.write_buffer (readable_bytes s.write_buffer) >>= put_four s)

abbrev pub queue_and_enable : SerialDevice → List ℕ → ℤ → Result SerialDevice
queue_and_enable s data_ n = write_bytes s.write_buffer data_ n >>= λ b.
    with_event enable_writing s.serial_event (with_write_buffer s b)

-- After the direct `write`: the first bytes of `data` are queued, `remain` is not used.
abbrev pub after_write : ℤ → List ℕ → SerialDevice → Result SerialDevice
after_write (pos w) data_ s =
    if ltb w (length data_)
    then queue_and_enable s data_ (to_int32 (pos (length data_ - w)))
    else ok s
after_write (negsuc w) data_ s = queue_and_enable s data_ (to_int32 (pos (length data_)))

abbrev pub send_in : State → ℤ → List ℕ → SerialDevice → Result SerialDevice
send_in k_running wsize data_ s =
    if ltb_ℤ (pos 0) (readable_bytes s.write_buffer)
    then map_ok (with_write_buffer s)
        (write_bytes s.write_buffer data_ (to_int32 (pos (length data_))))
    else after_write wsize data_ (emit (puts data_) s)
send_in k_none wsize data_ s = ok (emit logs s)
send_in k_inited wsize data_ s = ok (emit logs s)

-- `send`, with what a `write` of the data would return.
unfoldable pub send : ℤ → List ℕ → SerialDevice → Result SerialDevice
send wsize data_ s = send_in s.state wsize data_ s
