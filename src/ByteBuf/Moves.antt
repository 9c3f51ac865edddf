-- ===== src/ByteBuf/Moves.antt =====
-- The members that move the positions, as steps of one buffer, and what they keep.
use cpptool_box.Base.{
  ℕ, ◌+◌, ◌^◌, ◌≤◌, ◌<◌, ◌≡◌, ◌∙◌, sym, ap, subst, refl, List, arith, length, length-append,
  length-insert_at, length-drop, drop, pos, pos_part, neg_part, Bool-cases, inl, inr, ltb, Result,
  ok, err,
}
use cpptool_box.ByteBuf.Data.{
  ByteBuf, Width, sizeof, new_data, set_data, write_data, read_t, read_tle,
}
use cpptool_box.ByteBuf.Data.Window.{IsValid, contents, write_data-IsValid}
use cpptool_box.ByteBuf.Data.Stream.{length-contents}
use cpptool_box.ByteBuf.Index.{
  assign, clear, mark_reader_index, mark_writer_index, reset_reader_index, reset_writer_index,
  set_reader_index, set_writer_index, set_index, skip_bytes,
}
use cpptool_box.ByteBuf.Bytes.{read_bytes, discard_read_bytes}
use cpptool_box.ByteBuf.Losses.{discarded, discard_read_bytes-discarded}
use cpptool_box.ByteBuf.Reads.{read_bytes-IsValid, read_t-IsValid, read_tle-IsValid}

-- What a caller does to a buffer, with the limits that it has to keep to: the data stay below 2 ^ 31
-- bytes; no more is read or skipped than is readable; a position that is set, or is reset to its mark,
-- stays in order with the other one and inside the data, where the member does not test for that; and
-- what is assigned is valid.
pub data Step (d : ByteBuf) : ByteBuf → Type 0 where
  writes : (t : List ℕ) → length d.origin_data + length t < 2 ^ 31 → Step d (write_data d t)
  sets :
      (i : ℕ) (t : List ℕ)
      → length d.origin_data + length t < 2 ^ 31
      → Step d (set_data d (pos i) t)
  reads :
      (n : ℕ) (b d' : ByteBuf)
      → n ≤ length (contents d)
      → read_bytes d (pos n) ≡ ok (b, d')
      → Step d d'
  reads_t :
      (w : Width) (x : ℕ) (d' : ByteBuf)
      → sizeof w ≤ length (contents d)
      → read_t w d ≡ ok (x, d')
      → Step d d'
  reads_tle :
      (w : Width) (x : ℕ) (d' : ByteBuf)
      → sizeof w ≤ length (contents d)
      → read_tle w d ≡ ok (x, d')
      → Step d d'
  skips : (n : ℕ) → n ≤ length (contents d) → Step d (skip_bytes d (pos n))
  discards : (d' : ByteBuf) → discard_read_bytes d ≡ ok d' → Step d d'
  clears : Step d (clear d)
  marks_reader : Step d (mark_reader_index d)
  marks_writer : Step d (mark_writer_index d)
  resets_reader :
      neg_part d.marked_reader_index ≡ 0
      → pos_part d.marked_reader_index ≤ pos_part d.writer_index
      → Step d (reset_reader_index d)
  resets_writer :
      neg_part d.marked_writer_index ≡ 0
      → pos_part d.reader_index ≤ pos_part d.marked_writer_index
      → pos_part d.marked_writer_index ≤ length d.origin_data
      → Step d (reset_writer_index d)
  moves_reader : (i : ℕ) → Step d (set_reader_index d (pos i))
  moves_writer : (i : ℕ) → pos_part d.reader_index ≤ i → Step d (set_writer_index d (pos i))
  moves_both : (r w : ℕ) → r ≤ w → r < length d.origin_data → Step d (set_index d (pos r) (pos w))
  assigns :
      (other : ByteBuf)
      → IsValid other
      → length d.origin_data + length other.origin_data < 2 ^ 31
      → Step d (assign d other)

-- What discardReadBytes leaves, or the buffer itself.
abbrev discarded_or : ByteBuf → Result ByteBuf → ByteBuf
discarded_or d (ok d') = d'
discarded_or d (err e) = d

discard_read_bytes-IsValid :
    (d d' : ByteBuf) → IsValid d → discard_read_bytes d ≡ ok d' → IsValid d'
unfolding discarded
discard_read_bytes-IsValid d d' v e =
    subst IsValid (ap (discarded_or d) (sym (discard_read_bytes-discarded d v) ∙ e))
      (elim (Bool-cases (ltb (pos_part d.reader_index) (length d.origin_data))) [
        | inl a ↦ rw (discarded, a) emptied
        | inr a ↦ rw (discarded, a) v
      ])
  where
    emptied : IsValid (record d {
      origin_data = drop (pos_part d.reader_index + 1) d.origin_data;
      reader_index = pos 0;
      writer_index = pos 0;
    })
    emptied = record {
      reader_nonneg = refl;
      writer_nonneg = refl;
      ordered = omega arith;
      within = omega arith;
      small = omega (arith, v.small, length-drop (pos_part d.reader_index + 1) d.origin_data);
    }

assign-IsValid :
    (d other : ByteBuf)
    → IsValid other
    → length d.origin_data + length other.origin_data < 2 ^ 31
    → IsValid (assign d other)
unfolding assign
assign-IsValid d other v h = record {
  reader_nonneg = v.reader_nonneg;
  writer_nonneg = v.writer_nonneg;
  ordered = v.ordered;
  within = omega (arith, v.within, length-append d.origin_data other.origin_data);
  small = omega (arith, h, length-append d.origin_data other.origin_data);
}

set_data-IsValid :
    (d : ByteBuf) (i : ℕ) (t : List ℕ)
    → IsValid d
    → length d.origin_data + length t < 2 ^ 31
    → IsValid (set_data d (pos i) t)
unfolding set_data
set_data-IsValid d i t v h =
    ground (arith, length-append d.origin_data t, length-insert_at i t d.origin_data)

skip_bytes-IsValid :
    (d : ByteBuf) (n : ℕ) → IsValid d → n ≤ length (contents d) → IsValid (skip_bytes d (pos n))
unfolding skip_bytes
skip_bytes-IsValid d n v h = ground (arith, length-contents d v)

set_reader_index-IsValid : (d : ByteBuf) (i : ℕ) → IsValid d → IsValid (set_reader_index d (pos i))
unfolding set_reader_index
set_reader_index-IsValid d i v = ground arith

set_writer_index-IsValid :
    (d : ByteBuf) (i : ℕ)
    → IsValid d
    → pos_part d.reader_index ≤ i
    → IsValid (set_writer_index d (pos i))
unfolding set_writer_index
set_writer_index-IsValid d i v h = ground arith

set_index-IsValid :
    (d : ByteBuf) (r w : ℕ)
    → IsValid d
    → r ≤ w
    → r < length d.origin_data
    → IsValid (set_index d (pos r) (pos w))
unfolding set_index
set_index-IsValid d r w v h k = ground arith

-- Every step keeps 0 <= readerIndex <= writerIndex <= size.
pub Step-IsValid : {d d' : ByteBuf} → Step d d' → IsValid d → IsValid d'
unfolding clear mark_reader_index mark_writer_index reset_reader_index reset_writer_index
Step-IsValid {d} (writes t h) v = write_data-IsValid d t v h
Step-IsValid {d} (sets i t h) v = set_data-IsValid d i t v h
Step-IsValid {d} (reads n b d' h e) v = read_bytes-IsValid d d' b n v h e
Step-IsValid {d} (reads_t w x d' h e) v = read_t-IsValid d d' w x v h e
Step-IsValid {d} (reads_tle w x d' h e) v = read_tle-IsValid d d' w x v h e
Step-IsValid {d} (skips n h) v = skip_bytes-IsValid d n v h
Step-IsValid {d} (discards d' e) v = discard_read_bytes-IsValid d d' v e
Step-IsValid clears v = omega arith
Step-IsValid marks_reader v = omega arith
Step-IsValid marks_writer v = omega arith
Step-IsValid {d} (resets_reader n h) v = omega (arith, n, h, v.within, v.small)
Step-IsValid {d} (resets_writer n h k) v = omega (arith, n, h, k, v.small)
Step-IsValid {d} (moves_reader i) v = set_reader_index-IsValid d i v
Step-IsValid {d} (moves_writer i h) v = set_writer_index-IsValid d i v h
Step-IsValid {d} (moves_both r w h k) v = set_index-IsValid d r w v h k
Step-IsValid {d} (assigns other o h) v = assign-IsValid d other o h

pub data Reach : ByteBuf → Type 0 where
  start : Reach new_data
  next : {d d' : ByteBuf} → Reach d → Step d d' → Reach d'

-- A buffer that is made empty and then goes through any sequence of writeData, setData, readBytes, readT,
-- readTLE, skipBytes, discardReadBytes, clear, both marks, both resets, readerIndex, writerIndex, setIndex
-- and operator= keeps 0 <= readerIndex <= writerIndex <= size, and its size below 2 ^ 31, if each call keeps
-- to these limits: no argument is negative; the size stays below 2 ^ 31; no more is read or skipped than is
-- readable; a mark that is reset to is in order with the other position and inside the data; a writer
-- position that is set is not in front of the reader position; a pair that is set is in order and begins
-- inside the data; and what is assigned is valid.
pub Reach-IsValid : {d : ByteBuf} → Reach d → IsValid d
Reach-IsValid start = omega arith
Reach-IsValid (next r s) = Step-IsValid s (Reach-IsValid r)
