-- ===== src/ByteBuf/Bytes.antt =====
-- gwcpp/base/ByteBuf.cpp: the members that move strings of bytes.
use cpptool_box.Base.{
  ℕ, List, [], ◌∷◌, leb, if◌then◌else◌, length, ℤ, pos, ◌+ℤ◌, to_int32, to_size, Result, ok, ◌>>=◌,
  map_ok, substr, substr_from, c_str, string_of, string_fill,
}
use cpptool_box.ByteBuf.Data.{ByteBuf, new_data, set_data, write_data}
use cpptool_box.ByteBuf.Index.{of_string, of_fill}

-- `copy()`.
unfoldable pub copy_all : ByteBuf → ByteBuf
copy_all d = of_string d.origin_data

-- `copy(int32_t, int32_t)`.
unfoldable pub copy_part : ByteBuf → ℤ → ℤ → Result ByteBuf
copy_part d index len = map_ok of_string (substr d.origin_data (to_size index) (to_size len))

unfoldable pub discard_read_bytes : ByteBuf → Result ByteBuf
discard_read_bytes d =
    map_ok (λ s. record d { origin_data = s; reader_index = pos 0; writer_index = pos 0 })
      (substr_from d.origin_data (to_size (d.reader_index +ℤ pos 1)))

-- `*res.data()`: the first byte, or the terminating zero.
abbrev first_byte : List ℕ → ℕ
first_byte [] = 0
first_byte (c ∷ s) = c

-- `getBytes(int32_t, char*)`: the byte stored through the pointer, if any, and the count returned.
unfoldable pub get_bytes_to : ByteBuf → ℤ → Result (List ℕ × ℤ)
get_bytes_to d index =
    if leb (length d.origin_data) (to_size index)
    then ok ([], pos 0)
    else map_ok (λ res. (first_byte res ∷ [], to_int32 (pos (length res))))
        (substr_from d.origin_data (to_size index))

-- `getBytes(int32_t, char*, int32_t)`.
unfoldable pub get_bytes_to_length : ByteBuf → ℤ → ℤ → Result (List ℕ × ℤ)
get_bytes_to_length d index len =
    if leb (length d.origin_data) (to_size index)
    then ok ([], pos 0)
    else map_ok (λ res. (first_byte res ∷ [], to_int32 (pos (length res))))
        (substr d.origin_data (to_size index) (to_size len))

-- `getBytes(int32_t)`.
unfoldable pub get_bytes_from : ByteBuf → ℤ → Result ByteBuf
get_bytes_from d index =
    if leb (length d.origin_data) (to_size index)
    then ok new_data
    else map_ok of_string (substr_from d.origin_data (to_size index))

-- `getBytes(int32_t, int32_t)`.
unfoldable pub get_bytes_part : ByteBuf → ℤ → ℤ → Result ByteBuf
get_bytes_part d index len =
    if leb (length d.origin_data) (to_size index)
    then ok new_data
    else map_ok of_string (substr d.origin_data (to_size index) (to_size len))

-- `writeBytes(const char*, int32_t)`.
unfoldable pub write_bytes : ByteBuf → List ℕ → ℤ → Result ByteBuf
write_bytes d p size = map_ok (write_data d) (string_of p size)

-- `writeBytes(const ByteBuf&)`, through the `const char*` of the other buffer.
unfoldable pub write_bytes_buf : ByteBuf → ByteBuf → ByteBuf
write_bytes_buf d buf = write_data d (c_str buf.origin_data)

unfoldable pub write_zero : ByteBuf → ℤ → Result ByteBuf
write_zero d len = map_ok (write_data d) (string_fill len 0)

-- `getBytes(int32_t, int32_t, int32_t)`.
unfoldable pub get_bytes_at : ByteBuf → ℤ → ℤ → ℤ → Result ByteBuf
get_bytes_at d index dst_index len =
    if leb (length d.origin_data) (to_size index)
    then ok new_data
    else of_fill dst_index 0 >>= λ buf.
        substr d.origin_data (to_size index) (to_size len) >>= λ res.
        write_bytes buf res (to_int32 (pos (length res)))

unfoldable pub read_bytes : ByteBuf → ℤ → Result (ByteBuf × ByteBuf)
read_bytes d len = substr d.origin_data (to_size d.reader_index) (to_size len) >>= λ t. ok (
  of_string t,
  record d { reader_index = to_int32 (d.reader_index +ℤ to_int32 (pos (length t))) },
)

-- `setBytes(int32_t, const ByteBuf&)`.
unfoldable pub set_bytes_buf : ByteBuf → ℤ → ByteBuf → ByteBuf
set_bytes_buf d index buf = set_data d index (c_str buf.origin_data)

-- `setBytes(int32_t, const char*, int32_t)`.
unfoldable pub set_bytes : ByteBuf → ℤ → List ℕ → ℤ → Result ByteBuf
set_bytes d index p size = map_ok (set_data d index) (string_of p size)

unfoldable pub set_zero : ByteBuf → ℤ → ℤ → Result ByteBuf
set_zero d index len = map_ok (set_data d index) (string_fill len 0)
