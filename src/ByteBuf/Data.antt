-- ===== src/ByteBuf/Data.antt =====
-- gwcpp/base/ByteBuf.h: class ByteBufData, the state of a buffer and its template members.
pub mod Codec
pub mod Window
pub mod Typed
pub mod Stream
pub mod Messages
pub mod Reads
pub mod Wide
use cpptool_box.Base.{
  ℕ, zero, suc, ◌+◌, ◌-◌, ◌*◌, ◌/◌, ◌%◌, ◌^◌, List, [], ◌∷◌, ◌++◌, ltb, if◌then◌else◌, length, ℤ,
  pos, ◌+ℤ◌, to_int32, to_size, sub_size, undefined, Result, ok, err, ◌>>=◌, at, insert_at,
}

-- `capacity` of the string is left to the library: it changes no content.
pub record ByteBuf : Type 0 where
  pub origin_data : List ℕ
  pub reader_index : ℤ
  pub writer_index : ℤ
  pub marked_reader_index : ℤ
  pub marked_writer_index : ℤ

-- The constructor of ByteBufData.
abbrev pub new_data : ByteBuf
new_data = record {
  origin_data = [];
  reader_index = pos 0;
  writer_index = pos 0;
  marked_reader_index = pos 0;
  marked_writer_index = pos 0;
}

-- The types that the templates are used at, by their size. A value of such a type is its pattern.
pub data Width : Type 0 where
  w8 w16 w32 w64 : Width

-- `sizeof(T)`, the argument `max_bit`.
abbrev pub sizeof : Width → ℕ
sizeof w8 = 1
sizeof w16 = 2
sizeof w32 = 4
sizeof w64 = 8

-- `(b & 0xff) << k` on `int`, which is undefined from 32 on.
abbrev pub shl_int : ℕ → ℕ → Result ℕ
shl_int b k = if ltb k 32 then ok (b % 256 * 2 ^ k % 2 ^ 32) else err undefined

-- The conversion of an `int` pattern to `T`: cut off, or extended by the sign.
abbrev pub int_to : Width → ℕ → ℕ
int_to w64 p = if ltb p (2 ^ 31) then p else p + (2 ^ 64 - 2 ^ 32)
int_to w8 p = p % 2 ^ 8
int_to w16 p = p % 2 ^ 16
int_to w32 p = p % 2 ^ 32

abbrev pub modulus : Width → ℕ
modulus w8 = 2 ^ 8
modulus w16 = 2 ^ 16
modulus w32 = 2 ^ 32
modulus w64 = 2 ^ 64

-- The `for` loop of `getT` and `readT`, by the rounds left.
unfoldable pub get_loop : Width → List ℕ → ℤ → ℕ → ℕ → ℕ → Result ℕ
get_loop w s index zero delta value = ok value
get_loop w s index (suc rounds) delta value = at s (to_size (pos delta +ℤ index)) >>= λ b.
    shl_int b (8 * (sizeof w - delta - 1)) >>= λ p.
    get_loop w s index rounds (delta + 1) ((value + int_to w p) % modulus w)

-- The `for` loop of `getTLE` and `readTLE`.
unfoldable pub get_loop_le : Width → List ℕ → ℤ → ℕ → ℕ → ℕ → Result ℕ
get_loop_le w s index zero delta value = ok value
get_loop_le w s index (suc rounds) delta value = at s (to_size (pos delta +ℤ index)) >>= λ b.
    shl_int b (8 * delta) >>= λ p.
    get_loop_le w s index rounds (delta + 1) ((value + int_to w p) % modulus w)

unfoldable pub get_t : Width → ByteBuf → ℤ → Result ℕ
unfolding get_loop
get_t w d index =
    if ltb (sub_size (length d.origin_data) (to_size index)) (sizeof w)
    then ok 0
    else get_loop w d.origin_data index (sizeof w) 0 0

unfoldable pub get_tle : Width → ByteBuf → ℤ → Result ℕ
unfolding get_loop_le
get_tle w d index =
    if ltb (sub_size (length d.origin_data) (to_size index)) (sizeof w)
    then ok 0
    else get_loop_le w d.origin_data index (sizeof w) 0 0

-- `readerIndex += max_bit`.
abbrev pub advance : ByteBuf → ℕ → ByteBuf
advance d n = record d { reader_index = to_int32 (d.reader_index +ℤ pos n) }

unfoldable pub read_t : Width → ByteBuf → Result (ℕ × ByteBuf)
unfolding get_loop
read_t w d =
    if ltb (sub_size (length d.origin_data) (to_size d.reader_index)) (sizeof w)
    then ok (0, d)
    else get_loop w d.origin_data d.reader_index (sizeof w) 0 0 >>= λ v.
        ok (v, advance d (sizeof w))

unfoldable pub read_tle : Width → ByteBuf → Result (ℕ × ByteBuf)
unfolding get_loop_le
read_tle w d =
    if ltb (sub_size (length d.origin_data) (to_size d.reader_index)) (sizeof w)
    then ok (0, d)
    else get_loop_le w d.origin_data d.reader_index (sizeof w) 0 0 >>= λ v.
        ok (v, advance d (sizeof w))

-- The `for` loop of `toBinary`, by the rounds left.
unfoldable pub to_binary_loop : Width → ℕ → ℕ → ℕ → List ℕ
to_binary_loop w value zero index = []
to_binary_loop w value (suc rounds) index =
    (value / 2 ^ (8 * (sizeof w - index - 1)) % 256) ∷ to_binary_loop w value rounds (index + 1)

unfoldable pub to_binary : Width → ℕ → List ℕ
unfolding to_binary_loop
to_binary w value = to_binary_loop w value (sizeof w) 0

-- The `for` loop of `toBinaryLE`.
unfoldable pub to_binary_le_loop : Width → ℕ → ℕ → ℕ → List ℕ
to_binary_le_loop w value zero index = []
to_binary_le_loop w value (suc rounds) index =
    (value / 2 ^ (8 * index) % 256) ∷ to_binary_le_loop w value rounds (index + 1)

unfoldable pub to_binary_le : Width → ℕ → List ℕ
unfolding to_binary_le_loop
to_binary_le w value = to_binary_le_loop w value (sizeof w) 0

unfoldable pub set_data : ByteBuf → ℤ → List ℕ → ByteBuf
set_data d index t =
    if ltb (length d.origin_data) (to_size index)
    then record d { origin_data = d.origin_data ++ t }
    else record d { origin_data = insert_at (to_size index) t d.origin_data }

unfoldable pub write_data : ByteBuf → List ℕ → ByteBuf
write_data d t =
    if ltb (length d.origin_data) (to_size d.writer_index)
    then record d {
      origin_data = d.origin_data ++ t;
      writer_index = to_int32 (pos (length (d.origin_data ++ t)));
    }
    else record d {
      origin_data = insert_at (to_size d.writer_index) t d.origin_data;
      writer_index = to_int32 (d.writer_index +ℤ to_int32 (pos (length t)));
    }

unfoldable pub set_t : Width → ByteBuf → ℤ → ℕ → ByteBuf
set_t w d index value = set_data d index (to_binary w value)

unfoldable pub set_tle : Width → ByteBuf → ℤ → ℕ → ByteBuf
set_tle w d index value = set_data d index (to_binary_le w value)

unfoldable pub write_t : Width → ByteBuf → ℕ → ByteBuf
write_t w d value = write_data d (to_binary w value)

unfoldable pub write_tle : Width → ByteBuf → ℕ → ByteBuf
write_tle w d value = write_data d (to_binary_le w value)
