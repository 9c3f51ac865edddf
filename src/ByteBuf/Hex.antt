-- ===== src/ByteBuf/Hex.antt =====
-- gwcpp/base/ByteBuf.cpp: hexadecimal text.
pub mod RoundTrip
use cpptool_box.Base.{
  ℕ, zero, suc, ◌+◌, ◌-◌, ◌*◌, ◌/◌, ◌%◌, ◌^◌, List, [], ◌∷◌, ◌++◌, Option, none, some, Bool, true,
  false, ◌&&◌, ltb, leb, if◌then◌else◌, length, get_or, ℤ, pos, negsuc, signed, pattern_of, to_size,
  sub_size, Result, ok, err, ◌>>=◌, at,
}
use Prim.Native.Nat.{bit_or}
use cpptool_box.ByteBuf.Data.{ByteBuf, new_data}
use cpptool_box.ByteBuf.Writers.{write_char}

pub data Case : Type 0 where
  lower upper : Case

-- The literal "0123456789abcdef".
abbrev digits_lower : List ℕ
digits_lower =
    b'0' ∷ b'1' ∷ b'2' ∷ b'3' ∷ b'4' ∷ b'5' ∷ b'6' ∷ b'7' ∷ b'8' ∷ b'9' ∷ b'a' ∷ b'b' ∷ b'c' ∷ b'd'
    ∷ b'e' ∷ b'f' ∷ []

-- The literal "0123456789ABCDEF".
abbrev digits_upper : List ℕ
digits_upper =
    b'0' ∷ b'1' ∷ b'2' ∷ b'3' ∷ b'4' ∷ b'5' ∷ b'6' ∷ b'7' ∷ b'8' ∷ b'9' ∷ b'A' ∷ b'B' ∷ b'C' ∷ b'D'
    ∷ b'E' ∷ b'F' ∷ []

unfoldable pub to_hex_lower : ℕ → ℕ
to_hex_lower value = get_or digits_lower (value % 16) 0

unfoldable pub to_hex_upper : ℕ → ℕ
to_hex_upper value = get_or digits_upper (value % 16) 0

-- One digit in the case asked for.
abbrev pub to_hex : Case → ℕ → ℕ
to_hex lower value = to_hex_lower value
to_hex upper value = to_hex_upper value

-- `ch >> 4` of a byte keeps its upper half in the four bits that are used.
unfoldable pub to_hex_string_from : Case → List ℕ → List ℕ → List ℕ
to_hex_string_from type fill_str [] = []
to_hex_string_from type fill_str (ch ∷ s) =
    to_hex type (ch / 16) ∷ to_hex type ch ∷ (fill_str ++ to_hex_string_from type fill_str s)

unfoldable pub to_hex_string : ByteBuf → Case → List ℕ → List ℕ
unfolding to_hex_string_from
to_hex_string d type fill_str = to_hex_string_from type fill_str d.origin_data

-- `fromHex(uint32_t)`.
unfoldable pub from_hex_digit : ℕ → ℤ
from_hex_digit c =
    if leb b'0' c && leb c b'9'
    then pos (c - b'0')
    else if leb b'A' c && leb c b'F'
    then pos (c - b'A' + 10)
    else if leb b'a' c && leb c b'f'
    then pos (c - b'a' + 10)
    else negsuc 0

-- `ch |= (char)fromHex(c) << 4` and `ch |= (char)fromHex(c)`, on the patterns of a `char`.
unfoldable pub join_digits : ℕ → ℕ → ℕ
unfolding from_hex_digit
join_digits c c' =
    bit_or (pattern_of 8 (from_hex_digit c) * 16 % 256) (pattern_of 8 (from_hex_digit c'))

-- The loop of `fromHex(const std::string&)`, on fuel: `index` moves by two.
unfoldable pub from_hex_loop : List ℕ → ℕ → ℕ → ByteBuf → Option (Result ByteBuf)
unfolding join_digits
from_hex_loop s zero index d = none
from_hex_loop s (suc fuel) index d = elim (ltb index (sub_size (length s) 1)) [
  | false ↦ some (ok d)
  | true ↦ elim (at s index) [
    | err e ↦ some (err e)
    | ok c ↦ elim (at s (index + 1)) [
      | err e ↦ some (err e)
      | ok c' ↦ from_hex_loop s fuel (index + 2) (write_char d (signed 8 (join_digits c c')))
    ]
  ]
]

-- An exception leaves this `noexcept` function as a call of std::terminate.
unfoldable pub from_hex : List ℕ → Option (Result ByteBuf)
unfolding from_hex_loop
from_hex s = from_hex_loop s (length s + 1) 0 new_data
