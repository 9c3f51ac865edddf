-- ===== src/Tests/Streams.antt =====
-- Tests of the log stream of gwcpp/base and of the text of numbers.
use cpptool_box.Base.{
  ℕ, suc, ◌^◌, ◌<◌, ◌≤◌, ◌≡◌, refl, List, [], ◌∷◌, some, true, negsuc, replicate, length,
  length-replicate, ok, arith,
}
use cpptool_box.Utils.Convert.{convert_digits, zero_at, convert, hex_digits, convert_hex}
use cpptool_box.Utils.Convert.Decimal.{integer, magnitude, convert-integer}
use cpptool_box.LogStream.{StreamBuffer, to_string, puts, Item, str, flag, pointer}
use cpptool_box.LogStream.Room.{IsValid, contents}
use cpptool_box.LogStream.Text.{spec_puts, puts_refines}

-- -128, the least value of eight bits.
convert-least : convert (negsuc 127) ≡ some (45 ∷ 49 ∷ 50 ∷ 56 ∷ [])
unfolding convert convert_digits zero_at
convert-least = refl

convert_hex-byte : convert_hex 175 ≡ some (65 ∷ 70 ∷ [])
unfolding convert_hex hex_digits
convert_hex-byte = refl

convert-integer_example :
    (s : List ℕ) × ((convert (negsuc 127) ≡ some s)
      × ((integer s ≡ negsuc 127)
          × ((k : ℕ) → magnitude (negsuc 127) < 10 ^ suc k → length s ≤ suc (suc k))))
convert-integer_example = convert-integer (negsuc 127)

-- A new stream over an array of 60 bytes.
abbrev stream : StreamBuffer
stream = record { data_bytes = replicate 60 170; cur = 0 }

stream-IsValid : IsValid 60 stream
stream-IsValid = record {
  size = length-replicate {A = ℕ} 60 170;
  inside = omega arith;
  small = omega arith;
}

abbrev items : List Item
items = str (111 ∷ 107 ∷ 32 ∷ []) ∷ Item.integer (negsuc 41) ∷ flag true ∷ pointer 175 ∷ []

puts_refines_example :
    (c : StreamBuffer) × ((puts stream items ≡ ok c)
      × (IsValid 60 c × (to_string c ≡ ok (spec_puts 60 (contents stream) items))))
puts_refines_example =
    puts_refines 60 stream items stream-IsValid (tt, (omega arith, (tt, (omega arith, tt))))
