-- ===== src/ByteBuf/Losses.antt =====
-- Where the members that move strings lose or keep bytes that their comments say otherwise of.
use cpptool_box.Base.{
  ℕ, ◌+◌, ◌-◌, ◌≤◌, ◌<◌, ◌≡◌, ap, ◌∙◌, List, [], ◌∷◌, ◌++◌, arith, ltb, if◌then◌else◌, length,
  length-drop, All, take, drop, drop-append, take-append, ℤ, pos, ◌+ℤ◌, pos_part, neg_part, to_size,
  Result, ok, err, out_of_range, c_str, c_str-zero,
}
use cpptool_box.ByteBuf.Data.{ByteBuf, write_data, set_data}
use cpptool_box.ByteBuf.Data.Window.{IsValid, contents}
use cpptool_box.ByteBuf.Index.{assign}
use cpptool_box.ByteBuf.Bytes.{write_bytes_buf, set_bytes_buf, discard_read_bytes}

-- `writeBytes(const ByteBuf&)` and `setBytes(int32_t, const ByteBuf&)` take the other buffer's bytes
-- up to its first zero byte and drop the rest, whatever its positions are.
pub write_bytes_buf-truncates :
    (d buf : ByteBuf) (index : ℤ) (s t : List ℕ)
    → buf.origin_data ≡ s ++ (0 ∷ t)
    → All (λ c. 0 < c) s
    → (write_bytes_buf d buf ≡ write_data d s) × (set_bytes_buf d index buf ≡ set_data d index s)
unfolding write_bytes_buf set_bytes_buf
write_bytes_buf-truncates d buf index s t e h =
    let cut : c_str buf.origin_data ≡ s = ap c_str e ∙ c_str-zero s t h in
    (ap (write_data d) cut, ap (set_data d index) cut)

to_size_next : (z : ℤ) → neg_part z ≡ 0 → to_size (z +ℤ pos 1) ≡ pos_part z + 1
to_size_next z h = ground arith

-- What `discardReadBytes` makes of a string and a reader position.
unfoldable pub discarded : ByteBuf → Result ByteBuf
discarded d =
    if ltb (pos_part d.reader_index) (length d.origin_data)
    then ok (record d {
      origin_data = drop (pos_part d.reader_index + 1) d.origin_data;
      reader_index = pos 0;
      writer_index = pos 0;
    })
    else err out_of_range

-- In a valid buffer `discardReadBytes` drops the bytes up to the reader position and one byte more,
-- leaves nothing readable, and throws std::out_of_range if the reader position is at the end.
pub discard_read_bytes-discarded : (d : ByteBuf) → IsValid d → discard_read_bytes d ≡ discarded d
unfolding discard_read_bytes discarded
discard_read_bytes-discarded d v = rw (to_size_next d.reader_index v.reader_nonneg) (ground arith)

-- Assigned to a buffer that holds no bytes, `operator=` makes the readable bytes those of the other.
pub contents-assign_empty :
    (d other : ByteBuf) → d.origin_data ≡ [] → contents (assign d other) ≡ contents other
unfolding assign
contents-assign_empty d other e = rw e

-- Assigned over a buffer that holds at least as many bytes as the other's writer position, `operator=`
-- leaves bytes of the old string readable, at the other's positions.
pub contents-assign_over :
    (d other : ByteBuf)
    → IsValid other
    → pos_part other.writer_index ≤ length d.origin_data
    → contents (assign d other) ≡ contents (record other { origin_data = d.origin_data })
unfolding assign
contents-assign_over d other v h =
    let r : ℕ = pos_part other.reader_index in
    let n : ℕ = pos_part other.writer_index - r in
    ap (take n) (drop-append r d.origin_data other.origin_data (omega arith))
    ∙ take-append n (drop r d.origin_data) other.origin_data
        (omega (arith, length-drop r d.origin_data))
