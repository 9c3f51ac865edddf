-- ===== src/Net/Connection/Queue.antt =====
-- The write side of a connection: what `send` takes and what `handleWrite` hands to the socket.
use cpptool_box.Base.{
  ℕ, ◌+◌, ◌-◌, ◌^◌, ◌<◌, ◌≡◌, refl, sym, ap, ◌∙◌, List, [], ◌∷◌, ◌++◌, Bool, true, false, some,
  Bool-cases, inl, inr, if◌then◌else◌, arith, length, length-take, length-drop, take, take_ge,
  drop_ge, ℤ, pos, pos_part, to_size, eq_ℤ, ok, ◌>>=◌, map_ok,
}
use mathlib.Core.List.{append_assoc, append-nil}
use cpptool_box.ByteBuf.Data.{ByteBuf, write_data}
use cpptool_box.ByteBuf.Data.Window.{contents, contents-write_data, length-write_data}
use cpptool_box.ByteBuf.Fifo.{
  IsTight, write_bytes_all, write-IsTight, after_read, read_bytes_tight, read-IsTight,
  contents-after_read, contents-tight,
}
use cpptool_box.ByteBuf.Index.{of_string, readable_bytes, clear}
use cpptool_box.ByteBuf.Bytes.{write_bytes, read_bytes}
use cpptool_box.Event.Poller.{Mask, Poller, is_writing, enable_writing, disable_writing, with_mask}
use cpptool_box.Event.Poller.Valid
use cpptool_box.Event.Poller.Updates.{with_mask-total}
use cpptool_box.Net.{asserted}
use cpptool_box.Net.Connection.{
  Session, connected, Effect, connects, receives, closes, transmits, logs, is_connected, emit, send,
  handle_write, write_out, wants_write, with_poller, with_write_buffer,
}

-- The event has its entry in a valid poller, the write buffer is used as a queue, and epoll watches for
-- the descriptor to be writable while bytes are left.
pub record IsOpen (s : Session) : Type 0 where
  pub is_connected : s.conn.state ≡ connected
  pub valid : Valid.IsValid s.poller
  pub entry : s.poller.fd_event_maps (s.poller.event s.conn.event).fd ≡ some s.conn.event
  pub tight : IsTight s.conn.write_buffer
  pub pending : is_writing (s.poller.event s.conn.event) ≡ false → contents s.conn.write_buffer ≡ []

-- The bytes handed to the socket, in order.
unfoldable pub transmitted : List Effect → List ℕ
transmitted [] = []
transmitted (transmits t ∷ es) = t ++ transmitted es
transmitted (connects ∷ es) = transmitted es
transmitted (receives t ∷ es) = transmitted es
transmitted (closes ∷ es) = transmitted es
transmitted (logs ∷ es) = transmitted es

transmitted-append :
    (es : List Effect) (t : List ℕ) → transmitted (es ++ (transmits t ∷ [])) ≡ transmitted es ++ t
unfolding transmitted
transmitted-append [] t = append-nil t
transmitted-append (transmits u ∷ es) t =
    rw (transmitted-append es t) (sym (append_assoc u (transmitted es) t))
transmitted-append (connects ∷ es) t = transmitted-append es t
transmitted-append (receives u ∷ es) t = transmitted-append es t
transmitted-append (closes ∷ es) t = transmitted-append es t
transmitted-append (logs ∷ es) t = transmitted-append es t

-- A poller with the same descriptor's entry, and the mask's write bit `b`.
record Polled (s : Session) (q : Poller) (b : Bool) : Type 0 where
  valid : Valid.IsValid q
  entry : q.fd_event_maps (q.event s.conn.event).fd ≡ some s.conn.event
  writing : is_writing (q.event s.conn.event) ≡ b

masks :
    (s : Session) (m : Mask)
    → IsOpen s
    → (q : Poller) × (with_mask s.poller s.conn.event m ≡ some q) × Polled s q m.writes
unfolding is_writing
masks s m o =
    let (q, h, v, e, w, _, _) = with_mask-total s.poller s.conn.event m o.valid (inr o.entry) in
    (q, h, record { valid = v; entry = e; writing = ap (λ x. x.writes) w })

wants_write_lem :
    (s : Session)
    → IsOpen s
    → (q : Poller) × (wants_write s ≡ ok (with_poller s q)) × Polled s q true
unfolding enable_writing
wants_write_lem s o = elim (Bool-cases (is_writing (s.poller.event s.conn.event))) [
  | inl w ↦ (s.poller, rw w refl, record { valid = o.valid; entry = o.entry; writing = w })
  | inr w ↦
      let (q, h, p) = masks s (record (s.poller.event s.conn.event).events { writes = true }) o in
      (q, rw (w, h) refl, p)
]

send-connected :
    (s : Session) (t : List ℕ) (n : ℤ)
    → s.conn.state ≡ connected
    → send s t n
      ≡ (wants_write s >>= λ u. map_ok (with_write_buffer u) (write_bytes u.conn.write_buffer t n))
unfolding send
send-connected s t n h =
    ap
      (λ x.
        if is_connected x
        then (wants_write s >>= λ u.
            map_ok (with_write_buffer u) (write_bytes u.conn.write_buffer t n))
        else ok s)
      h

-- `send` appends to the queue.
pub send_lem :
    (s : Session) (t : List ℕ)
    → IsOpen s
    → length s.conn.write_buffer.origin_data + length t < 2 ^ 31
    → (u : Session) × (send s t (pos (length t)) ≡ ok u)
      × IsOpen u
      × (u.effects ≡ s.effects)
      × (contents u.conn.write_buffer ≡ contents s.conn.write_buffer ++ t)
      × (length u.conn.write_buffer.origin_data ≡ length s.conn.write_buffer.origin_data + length t)
send_lem s t o h =
    let (q, e, p) = wants_write_lem s o in
    (
      with_write_buffer (with_poller s q) (write_data s.conn.write_buffer t),
      send-connected s t (pos (length t)) o.is_connected
          ∙ rw (e, write_bytes_all s.conn.write_buffer t) refl,
      record {
        is_connected = o.is_connected;
        valid = p.valid;
        entry = p.entry;
        tight = write-IsTight s.conn.write_buffer t o.tight h;
        pending = λ w. ground (arith, p.writing, w);
      },
      refl,
      contents-write_data s.conn.write_buffer t o.tight.valid h,
      length-write_data s.conn.write_buffer t o.tight.valid h,
    )

handle_write-writing :
    (s : Session)
    → s.conn.state ≡ connected
    → is_writing (s.poller.event s.conn.event) ≡ true
    → handle_write s
      ≡ (read_bytes s.conn.write_buffer (readable_bytes s.conn.write_buffer) >>= write_out s)
unfolding handle_write
handle_write-writing s h w =
    ap
      (λ x.
        if is_connected x
        then (if is_writing (s.poller.event s.conn.event)
            then (read_bytes s.conn.write_buffer (readable_bytes s.conn.write_buffer)
                >>= write_out s)
            else ok s)
        else ok (with_write_buffer s (clear s.conn.write_buffer)))
      h
    ∙ rw w refl

handle_write-waiting :
    (s : Session)
    → s.conn.state ≡ connected
    → is_writing (s.poller.event s.conn.event) ≡ false
    → handle_write s ≡ ok s
unfolding handle_write
handle_write-waiting s h w =
    ap
      (λ x.
        if is_connected x
        then (if is_writing (s.poller.event s.conn.event)
            then (read_bytes s.conn.write_buffer (readable_bytes s.conn.write_buffer)
                >>= write_out s)
            else ok s)
        else ok (with_write_buffer s (clear s.conn.write_buffer)))
      h
    ∙ rw w refl

length-contents :
    (d : ByteBuf) → IsTight d → length (contents d) ≡ length d.origin_data - pos_part d.reader_index
length-contents d v =
    omega
      (arith, ap length (contents-tight d v), length-drop (pos_part d.reader_index) d.origin_data)

readable_lem : (d : ByteBuf) → IsTight d → readable_bytes d ≡ pos (length (contents d))
readable_lem d v = ground (
  arith,
  length-contents d v,
  v.tight,
  v.valid.reader_nonneg,
  v.valid.writer_nonneg,
  v.valid.ordered,
)

readable-after :
    (d : ByteBuf) → IsTight d → readable_bytes (after_read d (length (contents d))) ≡ pos 0
readable-after d v = ground (
  arith,
  length-contents d v,
  v.tight,
  v.valid.reader_nonneg,
  v.valid.writer_nonneg,
  v.valid.ordered,
  length-take (length (contents d)) (contents d),
)

whole_string :
    (c : List ℕ) → length c < 2 ^ 31 → take (to_size (readable_bytes (of_string c))) c ≡ c
whole_string c h =
    let e : to_size (readable_bytes (of_string c)) ≡ length c = ground arith in
    rw e (take_ge (length c) c (omega arith))

write_out-all :
    (s : Session) (buf rest : ByteBuf) (c : List ℕ) (q : Poller)
    → take (to_size (readable_bytes buf)) buf.origin_data ≡ c
    → readable_bytes rest ≡ pos 0
    → disable_writing s.poller s.conn.event ≡ some q
    → write_out s (buf, rest) ≡ ok (with_poller (emit (transmits c) (with_write_buffer s rest)) q)
write_out-all s buf rest c q h z d =
    ap
      (λ n.
        if eq_ℤ n (pos 0)
        then map_ok
            (with_poller (
              emit (transmits (take (to_size (readable_bytes buf)) buf.origin_data))
                (with_write_buffer s rest)))
            (asserted (disable_writing s.poller s.conn.event))
        else ok (
            emit (transmits (take (to_size (readable_bytes buf)) buf.origin_data))
              (with_write_buffer s rest)))
      z
    ∙ rw (d, h) refl

short-contents : (d : ByteBuf) → IsTight d → length (contents d) < 2 ^ 31
short-contents d v = omega (arith, length-contents d v, v.valid.small)

-- The state after all that is queued is handed over.
abbrev after_write : Session → Poller → Session
after_write s q =
    with_poller
      (emit (transmits (contents s.conn.write_buffer)) (
        with_write_buffer s
          (after_read s.conn.write_buffer (length (contents s.conn.write_buffer)))))
      q

handle_write-all :
    (s : Session) (q : Poller)
    → IsOpen s
    → is_writing (s.poller.event s.conn.event) ≡ true
    → disable_writing s.poller s.conn.event ≡ some q
    → handle_write s ≡ ok (after_write s q)
handle_write-all s q o w d =
    let b = s.conn.write_buffer in
    let c = contents s.conn.write_buffer in
    handle_write-writing s o.is_connected w
    ∙ ap (λ n. read_bytes b n >>= write_out s) (readable_lem b o.tight)
    ∙ ap (λ r. r >>= write_out s) (read_bytes_tight b (length c) o.tight)
    ∙ ap (λ x. write_out s (of_string x, after_read b (length c)))
        (take_ge (length c) c (omega arith))
    ∙ write_out-all s (of_string c) (after_read b (length c)) c q
        (whole_string c (short-contents b o.tight)) (readable-after b o.tight) d

-- `handleWrite` hands over all that is queued.
pub handle_write_lem :
    (s : Session)
    → IsOpen s
    → (u : Session) × (handle_write s ≡ ok u)
      × IsOpen u
      × (transmitted u.effects ≡ transmitted s.effects ++ contents s.conn.write_buffer)
      × (contents u.conn.write_buffer ≡ [])
      × (length u.conn.write_buffer.origin_data ≡ length s.conn.write_buffer.origin_data)
unfolding disable_writing
handle_write_lem s o = elim (Bool-cases (is_writing (s.poller.event s.conn.event))) [
  | inl w ↦
      let (q, h, p) = masks s (record (s.poller.event s.conn.event).events { writes = false }) o in
      let n = length (contents s.conn.write_buffer) in
      let e : contents (after_read s.conn.write_buffer n) ≡ [] =
        contents-after_read s.conn.write_buffer n o.tight
        ∙ drop_ge n (contents s.conn.write_buffer) (omega arith) in
      (
        after_write s q,
        handle_write-all s q o w h,
        record {
          is_connected = o.is_connected;
          valid = p.valid;
          entry = p.entry;
          tight = read-IsTight s.conn.write_buffer n o.tight;
          pending = λ x. e;
        },
        transmitted-append s.effects (contents s.conn.write_buffer),
        e,
        refl,
      )
  | inr w ↦ (
    s,
    handle_write-waiting s o.is_connected w,
    o,
    rw (o.pending w) (sym (append-nil (transmitted s.effects))),
    o.pending w,
    refl,
  )
]
