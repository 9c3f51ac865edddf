-- ===== src/Tests/Strings.antt =====
-- Tests of the string utilities of gwcpp/base.
use cpptool_box.Base.{ℕ, ◌≡◌, refl, List, [], ◌∷◌, true, none, some, ok, arith}
use cpptool_box.Utils.{find_in, find, split_loop, split}
use cpptool_box.Utils.Cmdline.{quote_loop, split_cmdline_loop, split_cmdline}
use cpptool_box.Utils.Cmdline.Plain.{split_cmdline-words}
use cpptool_box.Utils.Space.{
  first, last, first_from, split_by_space_loop, split_by_space, strip, strip_left, strip_right,
  strip_quot,
}
use cpptool_box.Utils.Space.Words.{words, split_by_space-words}
use cpptool_box.Utils.Joined.{join}

-- A separator of two bytes, at the start, inside and at the end.
abbrev line : List ℕ
line = 13 ∷ (10 ∷ (7 ∷ (13 ∷ (8 ∷ (13 ∷ (10 ∷ []))))))

abbrev crlf : List ℕ
crlf = 13 ∷ (10 ∷ [])

split-crlf : split line crlf ≡ some (ok ([] ∷ ((7 ∷ (13 ∷ (8 ∷ []))) ∷ ([] ∷ []))))
unfolding find_in find split_loop split
split-crlf = refl

-- Nothing is one empty piece.
split-empty : split [] crlf ≡ some (ok ([] ∷ []))
unfolding find_in find split_loop split
split-empty = refl

-- With an empty separator the rounds run out.
split-endless : split (7 ∷ (8 ∷ [])) [] ≡ none
unfolding find_in find split_loop split
split-endless = refl

join-crlf : join crlf [] ((7 ∷ (13 ∷ (8 ∷ []))) ∷ ([] ∷ [])) ≡ line
unfolding join
join-crlf = refl

-- " a \tbc".
abbrev spaced : List ℕ
spaced = 32 ∷ 97 ∷ 32 ∷ 9 ∷ 98 ∷ 99 ∷ []

split_by_space-spaced : split_by_space spaced ≡ some (ok ((97 ∷ []) ∷ (98 ∷ 99 ∷ []) ∷ []))
unfolding split_by_space split_by_space_loop first_from first
split_by_space-spaced = refl

split_by_space-words_example : split_by_space spaced ≡ some (ok (words [] spaced))
split_by_space-words_example = split_by_space-words spaced

-- " a b " loses the spaces at its ends.
strip-ends : strip (32 ∷ 97 ∷ 32 ∷ 98 ∷ 32 ∷ []) ≡ ok (97 ∷ 32 ∷ 98 ∷ [])
unfolding strip first last
strip-ends = refl

strip_left-front : strip_left (32 ∷ 97 ∷ 32 ∷ []) ≡ ok (97 ∷ 32 ∷ [])
unfolding strip_left first
strip_left-front = refl

strip_right-back : strip_right (32 ∷ 97 ∷ 32 ∷ []) ≡ ok (32 ∷ 97 ∷ [])
unfolding strip_right last
strip_right-back = refl

-- A text of one quote is its own first and last character, and loses it.
strip_quot-single : strip_quot (39 ∷ []) ≡ ok []
unfolding strip_quot
strip_quot-single = refl

strip_quot-quoted : strip_quot (39 ∷ 97 ∷ 39 ∷ []) ≡ ok (97 ∷ [])
unfolding strip_quot
strip_quot-quoted = refl

split_cmdline-words_example : split_cmdline 1 spaced ≡ some (ok (true, words [] spaced))
split_cmdline-words_example =
    split_cmdline-words 0 spaced (refl, (refl, (refl, (refl, (refl, (refl, tt)))))) (omega arith)

-- "a 'b c' d".
split_cmdline-quoted :
    split_cmdline 1 (97 ∷ 32 ∷ 39 ∷ 98 ∷ 32 ∷ 99 ∷ 39 ∷ 32 ∷ 100 ∷ [])
    ≡ some (ok (true, (97 ∷ []) ∷ (98 ∷ 32 ∷ 99 ∷ []) ∷ (100 ∷ []) ∷ []))
unfolding split_cmdline split_cmdline_loop quote_loop first_from first
split_cmdline-quoted = refl

-- A quoted part inside a word: "a'b c' d".
split_cmdline-inside :
    split_cmdline 3 (97 ∷ 39 ∷ 98 ∷ 32 ∷ 99 ∷ 39 ∷ 32 ∷ 100 ∷ [])
    ≡ some (ok (true, (97 ∷ 39 ∷ 98 ∷ 32 ∷ 99 ∷ 39 ∷ []) ∷ (100 ∷ []) ∷ []))
unfolding split_cmdline split_cmdline_loop quote_loop first_from first
split_cmdline-inside = refl

-- The quote of "a'b" is not closed: no result within 20 rounds of the inner loop.
split_cmdline-open : split_cmdline 20 (97 ∷ 39 ∷ 98 ∷ []) ≡ none
unfolding split_cmdline split_cmdline_loop quote_loop first_from first
split_cmdline-open = refl
