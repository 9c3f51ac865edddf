-- ===== src/Utils.antt =====
-- gwcpp/base/Utils.cpp: splitting a string at a separator.
pub mod Joined
pub mod Convert
pub mod Space
pub mod Cmdline
use mathlib.Core.Option
use cpptool_box.Base.{
  ℕ, zero, suc, ◌+◌, ◌-◌, List, [], ◌∷◌, Bool, true, false, ◌&&◌, ◌==◌, Option, none, some, ltb,
  if◌then◌else◌, length, drop, Result, ok, ◌>>=◌, map_ok, substr, substr_from,
}

abbrev pub is_prefix : List ℕ → List ℕ → Bool
is_prefix [] s = true
is_prefix (c ∷ sep) [] = false
is_prefix (c ∷ sep) (d ∷ s) = (c == d) && is_prefix sep s

-- `s.find(sep, pos)` of std::string: the first occurrence at or behind `pos`, or none for npos.
unfoldable pub find_in : List ℕ → List ℕ → Option ℕ
find_in sep [] = if is_prefix sep [] then some 0 else none
find_in sep (d ∷ s) = if is_prefix sep (d ∷ s) then some 0 else Option.map suc (find_in sep s)

unfoldable pub find : List ℕ → List ℕ → ℕ → Option ℕ
find s sep p = if ltb (length s) p then none else Option.map (λ k. p + k) (find_in sep (drop p s))

-- The loop of `Split`, by the rounds that are left. `substr` up to npos is the rest of the string.
unfoldable pub split_loop : List ℕ → List ℕ → ℕ → ℕ → Option (Result (List (List ℕ)))
split_loop src_str sep zero start_pos = none
split_loop src_str sep (suc n) start_pos = elim (find src_str sep start_pos) [
  | none ↦ some (map_ok (λ str_chip. str_chip ∷ []) (substr_from src_str start_pos))
  | some end_pos ↦
      Option.map
        (λ rest. substr src_str start_pos (end_pos - start_pos) >>= λ str_chip.
          map_ok (λ v. str_chip ∷ v) rest)
        (split_loop src_str sep n (end_pos + length sep))
]

-- `Split`, with one round per byte and one more.
unfoldable pub split : List ℕ → List ℕ → Option (Result (List (List ℕ)))
split src_str sep = split_loop src_str sep (suc (length src_str)) 0
