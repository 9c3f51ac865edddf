-- ===== src/LogStream.antt =====
-- gwcpp/base/LogStream.h and LogStream.cpp: a buffer of fixed size, and the values that are put into
-- it as text.
pub mod Room
pub mod Text
use mathlib.Core.Option
use cpptool_box.Base.{
  ℕ, zero, suc, ◌+◌, ◌-◌, ◌*◌, ◌%◌, ◌^◌, List, [], ◌∷◌, ◌++◌, Bool, true, false, Option, none, some,
  if◌then◌else◌, ltb, length, take, drop, ℤ, pos, leb_ℤ, ◌-ℤ◌, to_int32, to_size, Result, ok, err,
  undefined, ◌>>=◌, string_of, c_str, replicate,
}
use cpptool_box.Utils.Convert.{convert, convert_hex}

-- `cur_` is kept as its distance from `data_`; `sizeof data_` is the length of the array.
pub record StreamBuffer : Type 0 where
  pub data_bytes : List ℕ
  pub cur : ℕ

abbrev pub avail : StreamBuffer → ℤ
avail b = to_int32 (pos (length b.data_bytes) -ℤ pos b.cur)

abbrev pub buffer_length : StreamBuffer → ℤ
buffer_length b = to_int32 (pos b.cur)

abbrev pub add : ℕ → StreamBuffer → StreamBuffer
add len b = record b { cur = b.cur + len }

abbrev pub reset : StreamBuffer → StreamBuffer
reset b = record b { cur = 0 }

abbrev pub bzero : StreamBuffer → StreamBuffer
bzero b = record b { data_bytes = replicate (length b.data_bytes) 0 }

abbrev pub to_string : StreamBuffer → Result (List ℕ)
to_string b = string_of b.data_bytes (buffer_length b)

-- Bytes written at `current()`; C++ leaves a write behind the array undefined.
unfoldable pub write_at : StreamBuffer → List ℕ → Result StreamBuffer
write_at b s =
    if ltb (length b.data_bytes) (b.cur + length s)
    then err undefined
    else ok (record b {
      data_bytes = take b.cur b.data_bytes ++ (s ++ drop (b.cur + length s) b.data_bytes);
    })

-- `append(buf, len)` for the first `len` bytes of `buf`.
unfoldable pub append : StreamBuffer → List ℕ → Result StreamBuffer
append b s =
    if ltb (length s) (to_size (avail b))
    then (write_at b s >>= λ c. ok (add (length s) c))
    else ok b

abbrev pub k_max_numeric_size : ℤ
k_max_numeric_size = pos 48

-- The part that formatInteger and the pointer share: a text is written with the zero byte behind it.
unfoldable pub put_number : StreamBuffer → List ℕ → Result StreamBuffer
put_number b s = write_at b (s ++ (0 ∷ [])) >>= λ c. ok (add (length s) c)

abbrev pub put_option : StreamBuffer → Option (List ℕ) → Result StreamBuffer
put_option b none = err undefined
put_option b (some s) = put_number b s

unfoldable pub format_integer : StreamBuffer → ℤ → Result StreamBuffer
format_integer b v = if leb_ℤ k_max_numeric_size (avail b) then put_option b (convert v) else ok b

unfoldable pub format_pointer : StreamBuffer → ℕ → Result StreamBuffer
format_pointer b v =
    if leb_ℤ k_max_numeric_size (avail b)
    then put_option b (Option.map (λ s. 48 ∷ 120 ∷ s) (convert_hex v))
    else ok b

-- `snprintf` writes at most 47 bytes of its text and a zero byte, and returns the length of the text.
unfoldable pub format_real : StreamBuffer → List ℕ → Result StreamBuffer
format_real b s =
    if leb_ℤ k_max_numeric_size (avail b)
    then (write_at b (take 47 s ++ (0 ∷ [])) >>= λ c. ok (add (length s) c))
    else ok b

-- The values that `operator<<` takes. The integer types are widened to int or stand for themselves; a
-- floating point value is given as the text that "%.12g" makes of it.
pub data Item : Type 0 where
  flag : Bool → Item
  integer : ℤ → Item
  pointer : ℕ → Item
  character : ℕ → Item
  c_string : Option (List ℕ) → Item  -- the bytes at the address; none for a null pointer
  str : List ℕ → Item
  real : List ℕ → Item

unfoldable pub put : StreamBuffer → Item → Result StreamBuffer
put b (flag v) = append b (if v then 49 ∷ [] else 48 ∷ [])
put b (integer v) = format_integer b v
put b (pointer v) = format_pointer b v
put b (character v) = append b (v ∷ [])
put b (c_string none) = append b (40 ∷ 110 ∷ 117 ∷ 108 ∷ 108 ∷ 41 ∷ [])
put b (c_string (some s)) = append b (c_str s)
put b (str v) = append b v
put b (real s) = format_real b s

unfoldable pub puts : StreamBuffer → List Item → Result StreamBuffer
puts b [] = ok b
puts b (v ∷ vs) = put b v >>= λ c. puts c vs
