-- ===== src/Utils/Convert.antt =====
-- gwcpp/base/Utils.h and Utils.cpp: the text of a number.
pub mod Decimal
pub mod Hex
use mathlib.Core.Option
use cpptool_box.Base.{
  ℕ, zero, suc, ◌+◌, ◌-◌, ◌/◌, ◌%◌, List, [], ◌∷◌, ◌++◌, reverse, Option, none, some, if◌then◌else◌,
  ◌==◌, ℤ, pos, negsuc, pos_part, neg_part, eq_ℤ, ltb_ℤ, get_or,
}

-- "9876543210123456789": `zero` points at its middle.
abbrev pub digits : List ℕ
digits =
    57 ∷ 56 ∷ 55 ∷ 54 ∷ 53 ∷ 52 ∷ 51 ∷ 50 ∷ 49 ∷ 48 ∷ 49 ∷ 50 ∷ 51 ∷ 52 ∷ 53 ∷ 54 ∷ 55 ∷ 56 ∷ 57
    ∷ []

-- "0123456789ABCDEF".
abbrev pub digits_hex : List ℕ
digits_hex = 48 ∷ 49 ∷ 50 ∷ 51 ∷ 52 ∷ 53 ∷ 54 ∷ 55 ∷ 56 ∷ 57 ∷ 65 ∷ 66 ∷ 67 ∷ 68 ∷ 69 ∷ 70 ∷ []

abbrev pub negated : ℕ → ℤ
negated zero = pos 0
negated (suc n) = negsuc n

-- `/` and `%` of C++ round to zero, so a remainder has the sign of the dividend.
abbrev pub quot_10 : ℤ → ℤ
quot_10 (pos n) = pos (n / 10)
quot_10 (negsuc n) = negated (suc n / 10)

abbrev pub rem_10 : ℤ → ℤ
rem_10 (pos n) = pos (n % 10)
rem_10 (negsuc n) = negated (suc n % 10)

-- `zero[lsd]`, which stands at most 9 places from `zero`.
unfoldable pub zero_at : ℤ → ℕ
zero_at (pos n) = get_or digits (9 + n) 0
zero_at (negsuc n) = get_or digits (8 - n) 0

-- The bytes that the loop of `convert` writes, by the rounds that are left.
unfoldable pub convert_digits : ℕ → ℤ → Option (List ℕ)
convert_digits zero i = none
convert_digits (suc n) i =
    let rest = convert_digits n (quot_10 i) in
    if eq_ℤ (quot_10 i) (pos 0)
    then some (zero_at (rem_10 i) ∷ [])
    else Option.map (λ p. zero_at (rem_10 i) ∷ p) rest

-- `convert`: the bytes before the final zero byte, whose number is what it returns.
unfoldable pub convert : ℤ → Option (List ℕ)
convert value =
    Option.map (λ p. reverse (if ltb_ℤ value (pos 0) then p ++ (45 ∷ []) else p))
      (convert_digits (suc (pos_part value + neg_part value)) value)

unfoldable pub hex_digits : ℕ → ℕ → Option (List ℕ)
hex_digits zero i = none
hex_digits (suc n) i =
    let rest = hex_digits n (i / 16) in
    if i / 16 == 0
    then some (get_or digits_hex (i % 16) 0 ∷ [])
    else Option.map (λ p. get_or digits_hex (i % 16) 0 ∷ p) rest

-- `convertHex`.
unfoldable pub convert_hex : ℕ → Option (List ℕ)
convert_hex value = Option.map reverse (hex_digits (suc value) value)
