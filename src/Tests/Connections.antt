-- ===== src/Tests/Connections.antt =====
-- Tests of gwcpp/net.
use cpptool_box.Base.{
  ◌+◌, ◌≡◌, refl, [], ◌∷◌, ◌++◌, map, none, true, false, if◌then◌else◌, arith, length, ok,
}
use cpptool_box.ByteBuf.Data.{new_data}
use cpptool_box.ByteBuf.Data.Window.{contents}
use cpptool_box.ByteBuf.Fifo.{IsTight}
use cpptool_box.Event.Poller.{Mask, is_writing, new_event}
use cpptool_box.Event.Poller.Valid.{IsValid, interest}
use cpptool_box.Net.Connection.{
  Session, connected, disconnected, receives, closes, new_connection, handle_close, disconnect,
}
use cpptool_box.Net.Connection.Receive.{
  IsCleared, kept, handle_reads, total, handle_reads_deliver, latest_first,
}
use cpptool_box.Net.Connection.Queue.{IsOpen, transmitted}
use cpptool_box.Net.Connection.Sent.{sends, writes, run, sent, run-sent}
use cpptool_box.Net.Connection.Close.{close-disconnect, fd_of}
use cpptool_box.Tests.{idle_poller, watching_poller, watching-IsValid}

abbrev pub read_mask : Mask
read_mask = record { reads = true; writes = false }

abbrev pub write_mask : Mask
write_mask = record { reads = false; writes = true }

-- A connection with all its callbacks, on descriptor 5.
abbrev pub session : Session
session = record {
  conn = record (new_connection (99 ∷ []) 0) {
    state = connected;
    connected_cb = true;
    receive_cb = true;
    close_cb = true;
  };
  poller = watching_poller read_mask;
  effects = [];
}

new-IsTight : IsTight new_data
new-IsTight = omega arith

session-IsOpen : IsOpen session
unfolding new_connection new_event is_writing
session-IsOpen = record {
  is_connected = refl;
  valid = watching-IsValid read_mask;
  entry = refl;
  tight = new-IsTight;
  pending = λ h. refl;
}

session-IsCleared : IsCleared session.conn.read_buffer
unfolding new_connection
session-IsCleared = record { at_start = refl; empty = refl }

run-sent_example :
    (u : Session) × (run session (sends (1 ∷ (2 ∷ [])) ∷ (writes ∷ (sends (3 ∷ []) ∷ []))) ≡ ok u)
    × IsOpen u
    × (transmitted u.effects ++ contents u.conn.write_buffer
        ≡ (transmitted session.effects ++ contents session.conn.write_buffer)
          ++ sent (sends (1 ∷ (2 ∷ [])) ∷ (writes ∷ (sends (3 ∷ []) ∷ []))))
unfolding new_connection sent
run-sent_example =
    run-sent session (sends (1 ∷ (2 ∷ [])) ∷ (writes ∷ (sends (3 ∷ []) ∷ []))) session-IsOpen
      (omega arith)

handle_reads_deliver_example :
    (t : Session) × (handle_reads session ((7 ∷ (8 ∷ [])) ∷ ((9 ∷ []) ∷ [])) ≡ ok t)
    × (t.effects ≡ session.effects ++ map receives ((7 ∷ (8 ∷ [])) ∷ ((9 ∷ []) ∷ [])))
    × (kept t ≡ latest_first ((7 ∷ (8 ∷ [])) ∷ ((9 ∷ []) ∷ [])) ++ kept session)
    × (length (kept t) ≡ length (kept session) + total ((7 ∷ (8 ∷ [])) ∷ ((9 ∷ []) ∷ [])))
unfolding new_connection total
handle_reads_deliver_example =
    handle_reads_deliver session ((7 ∷ (8 ∷ [])) ∷ ((9 ∷ []) ∷ [])) session-IsCleared refl
      (omega arith)

abbrev new_session : Session
new_session = record {
  conn = record (new_connection (99 ∷ []) 2) { connected_cb = true };
  poller = idle_poller;
  effects = [];
}

close-disconnect_example :
    (t : Session) × (u : Session) × (handle_close session ≡ ok t)
    × (t.effects
        ≡ (if session.conn.close_cb then session.effects ++ (closes ∷ []) else session.effects))
    × (disconnect t ≡ ok u)
    × (u.conn.state ≡ disconnected)
    × (u.effects ≡ t.effects)
    × IsValid u.poller
    × (u.poller.fd_event_maps (fd_of session) ≡ none)
    × (interest u.poller.ctl (fd_of session) ≡ none)
close-disconnect_example = close-disconnect session session-IsOpen
