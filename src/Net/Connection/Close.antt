-- ===== src/Net/Connection/Close.antt =====
-- The two ends of a connection's life: `connectFinished`, and `handleClose` with the `disconnect` that
-- the client and the server put into the queue of tasks.
use cpptool_box.Base.{
  ℤ, ◌≡◌, refl, ap, ◌∙◌, [], ◌∷◌, ◌++◌, Bool, true, false, none, some, inr, if◌then◌else◌, ok,
  ◌>>=◌,
}
use cpptool_box.ByteBuf.Data.Window.{contents}
use cpptool_box.ByteBuf.Fifo.{IsTight}
use cpptool_box.Event.Poller.{none_event, Poller, enable_reading, disable_all, remove}
use cpptool_box.Event.Poller.Valid.{IsValid, interest}
use cpptool_box.Event.Poller.Updates.{Usable, with_mask-total}
use cpptool_box.Event.Poller.Removal.{remove-total}
use cpptool_box.Net.Connection.{
  Session, disconnected, connecting, connected, Effect, connects, closes, calling, with_state,
  with_poller, connect_finished, handle_close, disconnect, removes_event, is_connected, disables,
  connect_in, close_in,
}
use cpptool_box.Net.Connection.Queue.{IsOpen}

-- The descriptor of the connection's event.
abbrev pub fd_of : Session → ℤ
fd_of s = (s.poller.event s.conn.event).fd

finish_lem :
    (s : Session) (q : Poller)
    → s.conn.state ≡ connecting
    → enable_reading s.poller s.conn.event ≡ some q
    → connect_finished s
      ≡ ok (calling s.conn.connected_cb connects (with_poller (with_state connected s) q))
unfolding connect_finished
finish_lem s q h e = ap (λ x. connect_in x s) h ∙ rw e refl

calling-IsOpen : (cb : Bool) (e : Effect) (s : Session) → IsOpen s → IsOpen (calling cb e s)
calling-IsOpen true e s o = record {
  is_connected = o.is_connected;
  valid = o.valid;
  entry = o.entry;
  tight = o.tight;
  pending = o.pending;
}
calling-IsOpen false e s o = o

-- A connection that is being set up, with nothing queued, is open after `connectFinished`, which
-- calls its callback and lets epoll watch for input.
pub connect_finished-IsOpen :
    (s : Session)
    → s.conn.state ≡ connecting
    → IsValid s.poller
    → Usable s.poller s.conn.event
    → IsTight s.conn.write_buffer
    → contents s.conn.write_buffer ≡ []
    → (t : Session) × (connect_finished s ≡ ok t) × IsOpen t
unfolding enable_reading
connect_finished-IsOpen s h v u b c =
    let (q, e, w, n, m, _, _) =
      with_mask-total s.poller s.conn.event
        (record (s.poller.event s.conn.event).events { reads = true }) v u in
    (
      calling s.conn.connected_cb connects (with_poller (with_state connected s) q),
      finish_lem s q h e,
      calling-IsOpen s.conn.connected_cb connects (with_poller (with_state connected s) q)
          (record { is_connected = refl; valid = w; entry = n; tight = b; pending = λ x. c }),
    )

close_lem :
    (s : Session) (q : Poller)
    → s.conn.state ≡ connected
    → disable_all s.poller s.conn.event ≡ some q
    → handle_close s
      ≡ ok (calling s.conn.close_cb closes (with_poller (with_state disconnected s) q))
unfolding handle_close
close_lem s q h e = ap (λ x. close_in x s) h ∙ rw e refl

disconnect_lem :
    (s : Session) (q : Poller)
    → s.conn.state ≡ disconnected
    → remove s.poller s.conn.event ≡ some q
    → disconnect s ≡ ok (with_poller s q)
unfolding disconnect
disconnect_lem s q h e =
    ap
      (λ x.
        if is_connected x
        then (disables (with_state connecting s) >>= removes_event)
        else removes_event s)
      h
    ∙ rw e refl

calling-lem :
    (cb : Bool) (e : Effect) (s : Session)
    → calling cb e s ≡ record s { effects = if cb then s.effects ++ (e ∷ []) else s.effects }
calling-lem true e s = refl
calling-lem false e s = refl

-- `handleClose` on an open connection and the `disconnect` after it succeed, and leave no trace of the
-- event in the map or in epoll.
pub close-disconnect :
    (s : Session)
    → IsOpen s
    → (t : Session) × (u : Session) × (handle_close s ≡ ok t)
      × (t.effects ≡ (if s.conn.close_cb then s.effects ++ (closes ∷ []) else s.effects))
      × (disconnect t ≡ ok u)
      × (u.conn.state ≡ disconnected)
      × (u.effects ≡ t.effects)
      × IsValid u.poller
      × (u.poller.fd_event_maps (fd_of s) ≡ none)
      × (interest u.poller.ctl (fd_of s) ≡ none)
unfolding disable_all
close-disconnect s o =
    let (q, e, w, n, m, _, f) =
      with_mask-total s.poller s.conn.event none_event o.valid (inr o.entry) in
    let (r, g, x, y, z, _, _) = remove-total q s.conn.event w m n in
    let t : Session = record s {
      conn = record s.conn { state = disconnected };
      poller = q;
      effects = if s.conn.close_cb then s.effects ++ (closes ∷ []) else s.effects;
    } in
    (
      t,
      with_poller t r,
      close_lem s q o.is_connected e
          ∙ ap (λ k. ok k)
              (calling-lem s.conn.close_cb closes (with_poller (with_state disconnected s) q)),
      refl,
      disconnect_lem t r refl g,
      refl,
      refl,
      x,
      rw (← f s.conn.event) y,
      rw (← f s.conn.event) z,
    )
