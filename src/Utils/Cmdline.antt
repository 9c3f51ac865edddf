-- ===== src/Utils/Cmdline.antt =====
-- SplitCmdline of gwcpp/base/Utils.cpp. A position is none for npos.
pub mod Plain
use mathlib.Core.Option
use cpptool_box.Base.{
  ℕ, zero, suc, ◌+◌, List, [], ◌∷◌, Bool, true, false, ◌==◌, Option, none, some, if◌then◌else◌, ltb,
  length, Result, ok, err, ◌>>=◌, map_ok, at, substr, substr_from, sub_size,
}
use cpptool_box.Utils.Space.{blank, no_blank, first_from, is_quote}

-- `pos + 1`, which wraps to 0 for npos.
abbrev pub behind : Option ℕ → ℕ
behind none = 0
behind (some pos) = suc pos

-- `quot_start_pos < end_pos || end_pos == npos`.
abbrev pub is_in_word : ℕ → Option ℕ → Bool
is_in_word quot_start_pos none = true
is_in_word quot_start_pos (some end_pos) = ltb quot_start_pos end_pos

-- The inner loop, by the rounds that are left: the end of a word with quotes in it.
unfoldable pub quote_loop : List ℕ → ℕ → Option ℕ → Option ℕ → Option (Result (Option ℕ))
quote_loop cmd zero end_pos quot_start_pos = none
quote_loop cmd (suc n) end_pos none = some (ok end_pos)
quote_loop cmd (suc n) end_pos (some quot_start_pos) = elim (at cmd quot_start_pos) [
  | err e ↦ some (err e)
  | ok quot_char ↦
      let quot_end_pos = first_from (λ c. c == quot_char) cmd (suc quot_start_pos) in
      let next =
        quote_loop cmd n (first_from blank cmd (behind quot_end_pos))
          (first_from is_quote cmd (behind quot_end_pos)) in
      if is_in_word quot_start_pos end_pos then next else some (ok end_pos)
]

-- What is returned, and `args`.
abbrev pub Split : Type 0
Split = Bool × List (List ℕ)

abbrev pub push : Result (List ℕ) → Result Split → Result Split
push arg rest = arg >>= λ a. map_ok (λ r. (r.0, a ∷ r.1)) rest

-- A word in quotes, by the end that is found for it, and what is split behind it.
abbrev pub quoted_word : List ℕ → ℕ → Option ℕ → (ℕ → Option (Result Split)) → Option (Result Split)
quoted_word cmd start_pos none rest = some (ok (false, []))
quoted_word cmd start_pos (some end_pos) rest =
    Option.map (push (substr cmd (suc start_pos) (sub_size (sub_size end_pos start_pos) 1)))
      (rest (suc end_pos))

-- Another word, by the end that the inner loop finds.
abbrev pub plain_word :
    List ℕ → ℕ → Option (Result (Option ℕ)) → (ℕ → Option (Result Split)) → Option (Result Split)
plain_word cmd start_pos none rest = none
plain_word cmd start_pos (some (err e)) rest = some (err e)
plain_word cmd start_pos (some (ok none)) rest =
    some (push (substr_from cmd start_pos) (ok (true, [])))
plain_word cmd start_pos (some (ok (some end_pos))) rest =
    Option.map (push (substr cmd start_pos (sub_size end_pos start_pos))) (rest end_pos)

-- The outer loop, by the rounds that are left, with `m` rounds for each inner loop.
unfoldable pub split_cmdline_loop : ℕ → List ℕ → ℕ → ℕ → Option (Result Split)
split_cmdline_loop m cmd zero end_pos = none
split_cmdline_loop m cmd (suc n) end_pos = elim (first_from no_blank cmd end_pos) [
  | none ↦ some (ok (true, []))
  | some start_pos ↦ elim (at cmd start_pos) [
    | err e ↦ some (err e)
    | ok start_char ↦
        if is_quote start_char
        then quoted_word cmd start_pos (first_from (λ c. c == start_char) cmd (suc start_pos))
            (split_cmdline_loop m cmd n)
        else plain_word cmd start_pos
            (quote_loop cmd m (first_from blank cmd start_pos) (first_from is_quote cmd start_pos))
            (split_cmdline_loop m cmd n)
  ]
]

-- `SplitCmdline`.
unfoldable pub split_cmdline : ℕ → List ℕ → Option (Result Split)
split_cmdline m cmd = split_cmdline_loop m cmd (suc (length cmd)) 0
