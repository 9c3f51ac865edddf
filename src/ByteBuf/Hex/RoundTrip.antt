-- ===== src/ByteBuf/Hex/RoundTrip.antt =====
-- Hexadecimal text and back.
use mathlib.Core.List.{append_assoc, append-nil}
use cpptool_box.Base.{
  ℕ, zero, suc, ◌+◌, ◌*◌, ◌/◌, ◌^◌, ◌<◌, ◌≡◌, refl, sym, ap, ◌∙◌, List, [], ◌∷◌, ◌++◌, Option, none,
  some, Bool-cases, inl, inr, if◌then◌else◌, ◌≤◌, true, false, arith, ltb, lt→ltb, ◌==◌, ==_iff,
  length, length-append, take_ge, drop_ge, signed, sub_size, ok, at, IsBytes,
}
use cpptool_box.ByteBuf.Data.{ByteBuf, write_t, write_data, to_binary}
use cpptool_box.ByteBuf.Data.Codec.{at-append}
use cpptool_box.ByteBuf.Index.{of_string}
use cpptool_box.ByteBuf.Writers.{write_char}
use cpptool_box.ByteBuf.Hex.{
  Case, lower, upper, to_hex, to_hex_lower, to_hex_upper, to_hex_string_from, to_hex_string,
  join_digits, from_hex_loop, from_hex,
}

-- The first byte at or behind `ch`, among the next `count`, whose two digits are not joined to it again.
unjoined : Case → ℕ → ℕ → Option ℕ
unjoined type ch zero = none
unjoined type ch (suc count) =
    if join_digits (to_hex type (ch / 16)) (to_hex type ch) == ch
    then unjoined type (ch + 1) count
    else some ch

no_unjoined : (type : Case) → unjoined type 0 256 ≡ none
unfolding unjoined join_digits to_hex_lower to_hex_upper
no_unjoined lower = refl
no_unjoined upper = refl

joined_in :
    (type : Case) (count from ch : ℕ)
    → unjoined type from count ≡ none
    → from ≤ ch
    → ch < from + count
    → join_digits (to_hex type (ch / 16)) (to_hex type ch) ≡ ch
unfolding unjoined
joined_in type zero from ch e h k = absurd (omega arith)
joined_in type (suc count) from ch e h k =
    elim (Bool-cases (join_digits (to_hex type (from / 16)) (to_hex type from) == from)) [
      | inl t ↦ elim (Bool-cases (from == ch)) [
        | inl same ↦ rw (← (==_iff from ch).0 same) ((==_iff _ from).0 t)
        | inr other ↦
            joined_in type count (from + 1) ch (rw t at e) (ground (arith, other)) (omega arith)
      ]
      | inr t ↦ ground (arith, rw t at e)
    ]

-- The two digits of a byte are joined to that byte.
join-to_hex :
    (type : Case) (ch : ℕ) → ch < 256 → join_digits (to_hex type (ch / 16)) (to_hex type ch) ≡ ch
join-to_hex type ch h = joined_in type 256 0 ch (no_unjoined type) (omega arith) (omega arith)

-- A byte written behind the text of a fresh buffer.
write_char-of_string :
    (s : List ℕ) (ch : ℕ)
    → ch < 256
    → length s + 1 < 2 ^ 31
    → write_char (of_string s) (signed 8 ch) ≡ of_string (s ++ (ch ∷ []))
unfolding write_char write_t write_data to_binary
write_char-of_string s ch h k = ground (
  arith,
  take_ge (length s) s,
  drop_ge (length s) s,
  append-nil (ch ∷ []),
  length-append s (ch ∷ []),
)

-- One round of the loop.
from_hex_step :
    (s : List ℕ) (fuel i : ℕ) (d : ByteBuf) (c c' : ℕ)
    → ltb i (sub_size (length s) 1) ≡ true
    → at s i ≡ ok c
    → at s (i + 1) ≡ ok c'
    → from_hex_loop s (suc fuel) i d
      ≡ from_hex_loop s fuel (i + 2) (write_char d (signed 8 (join_digits c c')))
unfolding from_hex_loop
from_hex_step s fuel i d c c' h e e' = rw (h, e, e', from_hex_loop)

-- The end of the loop.
from_hex_stop :
    (s : List ℕ) (fuel i : ℕ) (d : ByteBuf)
    → ltb i (sub_size (length s) 1) ≡ false
    → from_hex_loop s (suc fuel) i d ≡ some (ok d)
unfolding from_hex_loop
from_hex_stop s fuel i d h = rw (h, from_hex_loop)

module _ (type : Case) where
  abbrev text : List ℕ → List ℕ
  text s = to_hex_string_from type [] s

  text-append : (s t : List ℕ) → text (s ++ t) ≡ text s ++ text t
  unfolding to_hex_string_from
  text-append [] t = refl
  text-append (ch ∷ s) t = rw (text-append s t)

  length-text : (s : List ℕ) → length (text s) ≡ 2 * length s
  unfolding to_hex_string_from
  length-text [] = refl
  length-text (ch ∷ s) = omega (arith, length-text s)

  -- The two digits of the byte behind `s`.
  at_digits :
      (s t : List ℕ) (ch i : ℕ)
      → i ≡ 2 * length s
      → (at (text (s ++ (ch ∷ t))) i ≡ ok (to_hex type (ch / 16)))
        × (at (text (s ++ (ch ∷ t))) (i + 1) ≡ ok (to_hex type ch))
  unfolding to_hex_string_from
  at_digits s t ch i e = rw (text-append s (ch ∷ t)) (
    ap (at (text s ++ text (ch ∷ t))) (omega (arith, length-text s))
        ∙ at-append (text s) (text (ch ∷ t)) 0,
    ap (at (text s ++ text (ch ∷ t))) (omega (arith, length-text s))
        ∙ at-append (text s) (text (ch ∷ t)) 1,
  )

  -- The test of the loop: as long as bytes are left, and no longer.
  more_digits :
      (s t : List ℕ) (i : ℕ)
      → i ≡ 2 * length s
      → 0 < length (s ++ t)
      → length (s ++ t) < 2 ^ 30
      → ltb i (sub_size (length (text (s ++ t))) 1) ≡ ltb 0 (length t)
  more_digits s t i e h k = ground (arith, length-text (s ++ t), length-append s t)

  from_hex_from :
      (s t : List ℕ) (fuel i : ℕ)
      → IsBytes t
      → length t < fuel
      → 0 < length (s ++ t)
      → length (s ++ t) < 2 ^ 30
      → i ≡ 2 * length s
      → from_hex_loop (text (s ++ t)) fuel i (of_string s) ≡ some (ok (of_string (s ++ t)))
  from_hex_from s t zero i b f p k e = absurd (omega arith)
  from_hex_from s [] (suc fuel) i b f p k e =
      from_hex_stop (text (s ++ [])) fuel i (of_string s) (more_digits s [] i e p k)
      ∙ ap (λ u. some (ok (of_string u))) (sym (append-nil s))
  from_hex_from s (ch ∷ t) (suc fuel) i b f p k e =
      let (c, c') = at_digits s t ch i e in
      let assoc : (s ++ (ch ∷ [])) ++ t ≡ s ++ (ch ∷ t) = append_assoc s (ch ∷ []) t in
      let few : length s + 1 < 2 ^ 31 = omega (arith, length-append s (ch ∷ t)) in
      from_hex_step (text (s ++ (ch ∷ t))) fuel i (of_string s) _ _
        (more_digits s (ch ∷ t) i e p k ∙ lt→ltb 0 (suc (length t)) (omega arith)) c c'
      ∙ rw (join-to_hex type ch b.0, write_char-of_string s ch b.0 few, ← assoc)
          (from_hex_from (s ++ (ch ∷ [])) t fuel (i + 2) b.1 (omega arith) (rw assoc p) (rw assoc k)
            (omega (arith, length-append s (ch ∷ []))))

-- The text of a buffer that is not empty, in either case and with nothing between the bytes, is
-- read back by fromHex as a buffer of the same bytes; the loop ends.
pub from_hex-to_hex_string :
    (d : ByteBuf) (type : Case)
    → IsBytes d.origin_data
    → 0 < length d.origin_data
    → length d.origin_data < 2 ^ 30
    → from_hex (to_hex_string d type []) ≡ some (ok (of_string d.origin_data))
unfolding from_hex to_hex_string
from_hex-to_hex_string d type b h k =
    from_hex_from type [] d.origin_data (length (to_hex_string_from type [] d.origin_data) + 1) 0 b
      (omega (arith, length-text type d.origin_data)) h k (omega arith)
