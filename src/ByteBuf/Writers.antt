-- ===== src/ByteBuf/Writers.antt =====
-- gwcpp/base/ByteBuf.cpp: the typed writers at the writer position.
use cpptool_box.Base.{ℕ, ℤ, pattern_of}
use cpptool_box.ByteBuf.Data.{ByteBuf, w8, w16, w32, w64, write_t, write_tle}

unfoldable pub write_char : ByteBuf → ℤ → ByteBuf
write_char d value = write_t w8 d (pattern_of 8 value)

unfoldable pub write_unsigned_char : ByteBuf → ℕ → ByteBuf
write_unsigned_char d value = write_t w8 d value

unfoldable pub write_short : ByteBuf → ℤ → ByteBuf
write_short d value = write_t w16 d (pattern_of 16 value)

unfoldable pub write_unsigned_short : ByteBuf → ℕ → ByteBuf
write_unsigned_short d value = write_t w16 d value

unfoldable pub write_short_le : ByteBuf → ℤ → ByteBuf
write_short_le d value = write_tle w16 d (pattern_of 16 value)

unfoldable pub write_unsigned_short_le : ByteBuf → ℕ → ByteBuf
write_unsigned_short_le d value = write_tle w16 d value

unfoldable pub write_int : ByteBuf → ℤ → ByteBuf
write_int d value = write_t w32 d (pattern_of 32 value)

unfoldable pub write_unsigned_int : ByteBuf → ℕ → ByteBuf
write_unsigned_int d value = write_t w32 d value

unfoldable pub write_int_le : ByteBuf → ℤ → ByteBuf
write_int_le d value = write_tle w32 d (pattern_of 32 value)

unfoldable pub write_unsigned_int_le : ByteBuf → ℕ → ByteBuf
write_unsigned_int_le d value = write_tle w32 d value

unfoldable pub write_long : ByteBuf → ℤ → ByteBuf
write_long d value = write_t w64 d (pattern_of 64 value)

unfoldable pub write_unsigned_long : ByteBuf → ℕ → ByteBuf
write_unsigned_long d value = write_t w64 d value

unfoldable pub write_long_le : ByteBuf → ℤ → ByteBuf
write_long_le d value = write_tle w64 d (pattern_of 64 value)

unfoldable pub write_unsigned_long_le : ByteBuf → ℕ → ByteBuf
write_unsigned_long_le d value = write_tle w64 d value
