-- ===== src/ByteBuf/Readers.antt =====
-- gwcpp/base/ByteBuf.cpp: the typed readers at the reader position.
use cpptool_box.Base.{
  ℕ, ℤ, pos, ltb, if◌then◌else◌, length, signed, pattern_of, to_size, sub_size, Result, ok, map_ok,
  at,
}
use cpptool_box.ByteBuf.Data.{ByteBuf, w16, w32, w64, read_t, read_tle, advance}

-- The increment stands before the throw of `at`; a buffer is not followed past a throw.
unfoldable pub read_char : ByteBuf → Result (ℤ × ByteBuf)
read_char d =
    if ltb (sub_size (length d.origin_data) (to_size d.reader_index)) 1
    then ok (pos 0, d)
    else map_ok (λ b. (signed 8 b, advance d 1)) (at d.origin_data (to_size d.reader_index))

unfoldable pub read_unsigned_char : ByteBuf → Result (ℕ × ByteBuf)
read_unsigned_char d = map_ok (λ (v, d'). (pattern_of 8 v, d')) (read_char d)

unfoldable pub read_short : ByteBuf → Result (ℤ × ByteBuf)
read_short d = map_ok (λ (v, d'). (signed 16 v, d')) (read_t w16 d)

unfoldable pub read_unsigned_short : ByteBuf → Result (ℕ × ByteBuf)
read_unsigned_short d = read_t w16 d

unfoldable pub read_short_le : ByteBuf → Result (ℤ × ByteBuf)
read_short_le d = map_ok (λ (v, d'). (signed 16 v, d')) (read_tle w16 d)

unfoldable pub read_unsigned_short_le : ByteBuf → Result (ℕ × ByteBuf)
read_unsigned_short_le d = read_tle w16 d

unfoldable pub read_int : ByteBuf → Result (ℤ × ByteBuf)
read_int d = map_ok (λ (v, d'). (signed 32 v, d')) (read_t w32 d)

unfoldable pub read_unsigned_int : ByteBuf → Result (ℕ × ByteBuf)
read_unsigned_int d = read_t w32 d

unfoldable pub read_int_le : ByteBuf → Result (ℤ × ByteBuf)
read_int_le d = map_ok (λ (v, d'). (signed 32 v, d')) (read_tle w32 d)

unfoldable pub read_unsigned_int_le : ByteBuf → Result (ℕ × ByteBuf)
read_unsigned_int_le d = read_tle w32 d

unfoldable pub read_long : ByteBuf → Result (ℤ × ByteBuf)
read_long d = map_ok (λ (v, d'). (signed 64 v, d')) (read_t w64 d)

unfoldable pub read_unsigned_long : ByteBuf → Result (ℕ × ByteBuf)
read_unsigned_long d = read_t w64 d

unfoldable pub read_long_le : ByteBuf → Result (ℤ × ByteBuf)
read_long_le d = map_ok (λ (v, d'). (signed 64 v, d')) (read_tle w64 d)

unfoldable pub read_unsigned_long_le : ByteBuf → Result (ℕ × ByteBuf)
read_unsigned_long_le d = read_tle w64 d
