-- ===== src/ByteBuf/Getters.antt =====
-- gwcpp/base/ByteBuf.cpp: the typed readers at an index. A signed type is an integer, an unsigned one its pattern.
use cpptool_box.Base.{
  ℕ, ℤ, pos, leb, if◌then◌else◌, length, signed, pattern_of, to_size, Result, ok, map_ok, at,
}
use cpptool_box.ByteBuf.Data.{ByteBuf, w16, w32, w64, get_t, get_tle}

unfoldable pub get_char : ByteBuf → ℤ → Result ℤ
get_char d index =
    if leb (length d.origin_data) (to_size index)
    then ok (pos 0)
    else map_ok (signed 8) (at d.origin_data (to_size index))

unfoldable pub get_byte : ByteBuf → ℤ → Result ℕ
get_byte d index =
    if leb (length d.origin_data) (to_size index) then ok 0 else at d.origin_data (to_size index)

unfoldable pub get_unsigned_char : ByteBuf → ℤ → Result ℕ
get_unsigned_char d index = map_ok (pattern_of 8) (get_char d index)

unfoldable pub get_short : ByteBuf → ℤ → Result ℤ
get_short d index = map_ok (signed 16) (get_t w16 d index)

unfoldable pub get_unsigned_short : ByteBuf → ℤ → Result ℕ
get_unsigned_short d index = get_t w16 d index

unfoldable pub get_short_le : ByteBuf → ℤ → Result ℤ
get_short_le d index = map_ok (signed 16) (get_tle w16 d index)

unfoldable pub get_unsigned_short_le : ByteBuf → ℤ → Result ℕ
get_unsigned_short_le d index = get_tle w16 d index

unfoldable pub get_int : ByteBuf → ℤ → Result ℤ
get_int d index = map_ok (signed 32) (get_t w32 d index)

unfoldable pub get_unsigned_int : ByteBuf → ℤ → Result ℕ
get_unsigned_int d index = get_t w32 d index

unfoldable pub get_int_le : ByteBuf → ℤ → Result ℤ
get_int_le d index = map_ok (signed 32) (get_tle w32 d index)

unfoldable pub get_unsigned_int_le : ByteBuf → ℤ → Result ℕ
get_unsigned_int_le d index = get_tle w32 d index

unfoldable pub get_long : ByteBuf → ℤ → Result ℤ
get_long d index = map_ok (signed 64) (get_t w64 d index)

unfoldable pub get_unsigned_long : ByteBuf → ℤ → Result ℕ
get_unsigned_long d index = get_t w64 d index

unfoldable pub get_long_le : ByteBuf → ℤ → Result ℤ
get_long_le d index = map_ok (signed 64) (get_tle w64 d index)

unfoldable pub get_unsigned_long_le : ByteBuf → ℤ → Result ℕ
get_unsigned_long_le d index = get_tle w64 d index
