-- ===== src/Net/Connection/Receive.antt =====
-- The read side of a connection: what `handleRead` hands to the callback.
use cpptool_box.Base.{
  ℕ, ◌+◌, ◌^◌, ◌<◌, ◌≡◌, refl, sym, List, [], ◌∷◌, ◌++◌, map, true, false, if◌then◌else◌, arith,
  length, length-append, take, take-append_left, pos, to_size, ◌-ℤ◌, Result, ok, ◌>>=◌, ap, ◌∙◌,
}
use mathlib.Core.List.{append_assoc, append-nil}
use cpptool_box.ByteBuf.Data.{ByteBuf, write_data}
use cpptool_box.ByteBuf.Data.Window.{IsValid, write_data_pos}
use cpptool_box.ByteBuf.Fifo.{write_bytes_all}
use cpptool_box.ByteBuf.Index.{clear, readable_bytes}
use cpptool_box.Net.Connection.{Session, receives, bytes, handle_read, read_in, calling}

-- As `clear` leaves a buffer: both positions are 0.
pub record IsCleared (d : ByteBuf) : Type 0 where
  pub at_start : d.reader_index ≡ pos 0
  pub empty : d.writer_index ≡ pos 0

-- The data of the read buffer.
abbrev pub kept : Session → List ℕ
kept s = s.conn.read_buffer.origin_data

-- The connection after a read: the bytes are in front of the old ones, and both positions are 0.
abbrev pub after_bytes : Session → List ℕ → Session
after_bytes s buf = record s {
  conn = record s.conn {
    read_buffer = record s.conn.read_buffer {
      origin_data = buf ++ kept s;
      reader_index = pos 0;
      writer_index = pos 0;
    };
  };
  effects = if s.conn.receive_cb then s.effects ++ (receives buf ∷ []) else s.effects;
}

cleared-IsValid : (d : ByteBuf) → IsCleared d → length d.origin_data < 2 ^ 31 → IsValid d
cleared-IsValid d c h = ground (arith, c.at_start, c.empty)

no_offset : (t : List ℕ) → 0 + length t ≡ length t
no_offset t = omega arith

-- A write into a cleared buffer stands in front of the data.
write_cleared :
    (d : ByteBuf) (t : List ℕ)
    → IsCleared d
    → length d.origin_data + length t < 2 ^ 31
    → write_data d t ≡ record d {
      origin_data = t ++ d.origin_data;
      reader_index = pos 0;
      writer_index = pos (length t);
    }
write_cleared d t c h =
    write_data_pos d t (cleared-IsValid d c (omega arith)) h
    ∙ rw (c.empty, c.at_start)
        (ap
          (λ k. record d {
            origin_data = t ++ d.origin_data;
            reader_index = pos 0;
            writer_index = pos k;
          })
          (no_offset t))

read_in_lem :
    (s : Session) (b : ByteBuf)
    → read_in s b ≡ record s {
      conn = record s.conn { read_buffer = clear b };
      effects =
          if s.conn.receive_cb
          then s.effects ++ (receives (take (to_size (readable_bytes b)) b.origin_data) ∷ [])
          else s.effects;
    }
read_in_lem s b =
    elim s.conn.receive_cb
      as (λ cb.
        record (calling cb (receives (take (to_size (readable_bytes b)) b.origin_data)) s) {
          conn =
              record (calling cb (receives (take (to_size (readable_bytes b)) b.origin_data))
                s).conn { read_buffer = clear b };
        }
        ≡ record s {
          conn = record s.conn { read_buffer = clear b };
          effects =
              if cb
              then s.effects ++ (receives (take (to_size (readable_bytes b)) b.origin_data) ∷ [])
              else s.effects;
        }) [ true ↦ refl | false ↦ refl ]

whole : (buf o : List ℕ) → take (to_size (pos (length buf) -ℤ pos 0)) (buf ++ o) ≡ buf
whole buf o =
    let e : to_size (pos (length buf) -ℤ pos 0) ≡ length buf = ground arith in
    rw e (take-append_left (length buf) buf o refl)

pub handle_read_delivers :
    (s : Session) (buf : List ℕ)
    → IsCleared s.conn.read_buffer
    → length (kept s) + length buf < 2 ^ 31
    → handle_read s (bytes buf) ≡ ok (after_bytes s buf)
unfolding handle_read clear
handle_read_delivers s buf c h =
    rw
      (
        write_bytes_all s.conn.read_buffer buf,
        write_cleared s.conn.read_buffer buf c h,
        read_in_lem s (record s.conn.read_buffer {
          origin_data = buf ++ kept s;
          reader_index = pos 0;
          writer_index = pos (length buf);
        }),
        whole buf (kept s),
      )
      refl

-- The `recv` calls of a connection, one per event.
unfoldable pub handle_reads : Session → List (List ℕ) → Result Session
handle_reads s [] = ok s
handle_reads s (buf ∷ bufs) = handle_read s (bytes buf) >>= λ t. handle_reads t bufs

unfoldable pub total : List (List ℕ) → ℕ
total [] = 0
total (buf ∷ bufs) = length buf + total bufs

-- The bytes of all chunks, the later chunk first.
abbrev pub latest_first : List (List ℕ) → List ℕ
latest_first [] = []
latest_first (buf ∷ bufs) = latest_first bufs ++ buf

-- From a cleared read buffer, with a callback set and less than 2 ^ 31 bytes in all, the chunks arrive at
-- the callback as they came in, and the bytes of every one stay in the data of the buffer, in front of
-- those before them, so that it grows by their number.
pub handle_reads_deliver :
    (s : Session) (bufs : List (List ℕ))
    → IsCleared s.conn.read_buffer
    → s.conn.receive_cb ≡ true
    → length (kept s) + total bufs < 2 ^ 31
    → (t : Session) × (handle_reads s bufs ≡ ok t)
      × (t.effects ≡ s.effects ++ map receives bufs)
      × (kept t ≡ latest_first bufs ++ kept s)
      × (length (kept t) ≡ length (kept s) + total bufs)
unfolding handle_reads total
handle_reads_deliver s [] c r h = (s, refl, sym (append-nil s.effects), refl, omega arith)
handle_reads_deliver s (buf ∷ bufs) c r h =
    let (t, e, f, b, k) =
      handle_reads_deliver (after_bytes s buf) bufs (record { at_start = refl; empty = refl }) r
        (omega (arith, length-append buf (kept s))) in
    let g : (after_bytes s buf).effects ++ map receives bufs
        ≡ s.effects ++ map receives (buf ∷ bufs) =
      rw r (append_assoc s.effects (receives buf ∷ []) (map receives bufs)) in
    (
      t,
      rw (handle_read_delivers s buf c (omega arith)) e,
      f ∙ g,
      b ∙ sym (append_assoc (latest_first bufs) buf (kept s)),
      omega (arith, k, length-append buf (kept s)),
    )
