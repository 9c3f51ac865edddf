-- ===== src/Utils/Space.antt =====
-- gwcpp/base/Utils.cpp: words between blanks, and texts without the spaces or quotes round them.
pub mod First
pub mod Words
use mathlib.Core.Option
use cpptool_box.Base.{
  ℕ, zero, suc, ◌+◌, ◌-◌, List, [], ◌∷◌, ◌++◌, Bool, true, false, not, ◌&&◌, ◌||◌, ◌==◌, Option,
  none, some, if◌then◌else◌, length, drop, Result, ok, err, undefined, ◌>>=◌, map_ok, substr,
  substr_from, sub_size,
}

-- The characters of " \t".
abbrev pub blank : ℕ → Bool
blank c = (c == 32) || (c == 9)

abbrev pub no_blank : ℕ → Bool
no_blank c = not (blank c)

abbrev pub no_space : ℕ → Bool
no_space c = not (c == 32)

-- The place of the first and of the last character that a test accepts.
unfoldable pub first : (ℕ → Bool) → List ℕ → Option ℕ
first p [] = none
first p (c ∷ s) = if p c then some 0 else Option.map suc (first p s)

unfoldable pub last : (ℕ → Bool) → List ℕ → Option ℕ
last p [] = none
last p (c ∷ s) = elim (last p s) [ some k ↦ some (suc k) | none ↦ if p c then some 0 else none ]

-- `find_first_of` and `find_first_not_of` from `pos` on; none for npos.
unfoldable pub first_from : (ℕ → Bool) → List ℕ → ℕ → Option ℕ
first_from p s pos = Option.map (λ k. pos + k) (first p (drop pos s))

-- The loop of `SplitBySpace`, by the rounds that are left. `substr` up to npos is the rest.
unfoldable pub split_by_space_loop : List ℕ → ℕ → ℕ → Option (Result (List (List ℕ)))
split_by_space_loop src_str zero end_pos = none
split_by_space_loop src_str (suc n) end_pos = elim (first_from no_blank src_str end_pos) [
  | none ↦ some (ok [])
  | some start_pos ↦ elim (first_from blank src_str start_pos) [
    | none ↦ some (map_ok (λ str_chip. str_chip ∷ []) (substr_from src_str start_pos))
    | some end_pos ↦
        Option.map
          (λ rest. substr src_str start_pos (end_pos - start_pos) >>= λ str_chip.
            map_ok (λ v. str_chip ∷ v) rest)
          (split_by_space_loop src_str n end_pos)
  ]
]

-- `SplitBySpace`, with one round per byte and one more.
unfoldable pub split_by_space : List ℕ → Option (Result (List (List ℕ)))
split_by_space src_str = split_by_space_loop src_str (suc (length src_str)) 0

unfoldable pub strip_left : List ℕ → Result (List ℕ)
strip_left orig_str = elim (first no_space orig_str) [
  | none ↦ ok []
  | some start_pos ↦ substr_from orig_str start_pos
]

-- The search from `size() - 1` backwards looks at the whole text; that position is npos for an empty one.
unfoldable pub strip_right : List ℕ → Result (List ℕ)
strip_right orig_str = elim (last no_space orig_str) [
  | none ↦ ok []
  | some end_pos ↦ substr orig_str 0 (end_pos + 1)
]

unfoldable pub strip : List ℕ → Result (List ℕ)
strip orig_str = elim (first no_space orig_str) [
  | none ↦ ok []
  | some start_pos ↦ elim (last no_space orig_str) [
    | none ↦ ok []
    | some end_pos ↦ substr orig_str start_pos (end_pos - start_pos + 1)
  ]
]

abbrev pub is_quote : ℕ → Bool
is_quote c = (c == 39) || (c == 34)

abbrev pub back_or : ℕ → List ℕ → ℕ
back_or c [] = c
back_or c (x ∷ s) = back_or x s

-- `front` and `back` of an empty text are undefined; the count wraps for a text of one quote.
unfoldable pub strip_quot : List ℕ → Result (List ℕ)
strip_quot [] = err undefined
strip_quot (c ∷ s) =
    if (c == back_or c s) && is_quote c
    then substr (c ∷ s) 1 (sub_size (length (c ∷ s)) 2)
    else ok (c ∷ s)
