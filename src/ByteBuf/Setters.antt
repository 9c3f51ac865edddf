-- ===== src/ByteBuf/Setters.antt =====
-- gwcpp/base/ByteBuf.cpp: the typed writers at an index.
use cpptool_box.Base.{ℕ, ℤ, pattern_of}
use cpptool_box.ByteBuf.Data.{ByteBuf, w8, w16, w32, w64, set_t, set_tle}

unfoldable pub set_char : ByteBuf → ℤ → ℤ → ByteBuf
set_char d index value = set_t w8 d index (pattern_of 8 value)

unfoldable pub set_unsigned_char : ByteBuf → ℤ → ℕ → ByteBuf
set_unsigned_char d index value = set_t w8 d index value

unfoldable pub set_short : ByteBuf → ℤ → ℤ → ByteBuf
set_short d index value = set_t w16 d index (pattern_of 16 value)

unfoldable pub set_unsigned_short : ByteBuf → ℤ → ℕ → ByteBuf
set_unsigned_short d index value = set_t w16 d index value

unfoldable pub set_short_le : ByteBuf → ℤ → ℤ → ByteBuf
set_short_le d index value = set_tle w16 d index (pattern_of 16 value)

unfoldable pub set_unsigned_short_le : ByteBuf → ℤ → ℕ → ByteBuf
set_unsigned_short_le d index value = set_tle w16 d index value

unfoldable pub set_int : ByteBuf → ℤ → ℤ → ByteBuf
set_int d index value = set_t w32 d index (pattern_of 32 value)

unfoldable pub set_unsigned_int : ByteBuf → ℤ → ℕ → ByteBuf
set_unsigned_int d index value = set_t w32 d index value

unfoldable pub set_int_le : ByteBuf → ℤ → ℤ → ByteBuf
set_int_le d index value = set_tle w32 d index (pattern_of 32 value)

unfoldable pub set_unsigned_int_le : ByteBuf → ℤ → ℕ → ByteBuf
set_unsigned_int_le d index value = set_tle w32 d index value

unfoldable pub set_long : ByteBuf → ℤ → ℤ → ByteBuf
set_long d index value = set_t w64 d index (pattern_of 64 value)

unfoldable pub set_unsigned_long : ByteBuf → ℤ → ℕ → ByteBuf
set_unsigned_long d index value = set_t w64 d index value

unfoldable pub set_long_le : ByteBuf → ℤ → ℤ → ByteBuf
set_long_le d index value = set_tle w64 d index (pattern_of 64 value)

unfoldable pub set_unsigned_long_le : ByteBuf → ℤ → ℕ → ByteBuf
set_unsigned_long_le d index value = set_tle w64 d index value
