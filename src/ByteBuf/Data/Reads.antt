-- ===== src/ByteBuf/Data/Reads.antt =====
-- What `getT` returns on each branch, against a description of the byte order by itself.
use mathlib.Core.Path.{subst₂}
use cpptool_box.Base.{
  ℕ, ◌+◌, ◌*◌, ◌^◌, ◌≤◌, ◌<◌, ◌≡◌, ap, ◌∙◌, List, [], ◌∷◌, arith, length, length-take, length-drop,
  take, drop, take-append-drop, ltb, if◌then◌else◌, get_elem?-none, pos, sub_size, Result, ok, err,
  out_of_range, at, IsBytes, le→ltb, lt→ltb, ltb→lt, ltb→le, false, Bool-cases, inl, inr, All-drop,
}
use cpptool_box.ByteBuf.Data.{ByteBuf, Width, w8, w16, w32, w64, sizeof, get_t, get_loop}
use cpptool_box.ByteBuf.Data.Codec.{IsNarrow, get_loop-append, to_size_add}
use cpptool_box.ByteBuf.Data.Typed.{guard_passes}

-- The number that a string of bytes spells, most significant byte first.
big_endian_from : ℕ → List ℕ → ℕ
big_endian_from acc [] = acc
big_endian_from acc (b ∷ s) = big_endian_from (acc * 256 + b) s

pub big_endian : List ℕ → ℕ
unfolding big_endian_from
big_endian s = big_endian_from 0 s

loop_big_endian :
    (w : Width) (t : List ℕ)
    → IsNarrow w
    → sizeof w ≤ length t
    → IsBytes t
    → get_loop w t (pos 0) (sizeof w) 0 0 ≡ ok (big_endian (take (sizeof w) t))
unfolding get_loop big_endian
loop_big_endian w8 (a ∷ t) n h b = ap ok (omega arith)
loop_big_endian w8 [] n h b = absurd (omega arith)
loop_big_endian w16 (a ∷ a' ∷ t) n h b = ap ok (omega arith)
loop_big_endian w16 (a ∷ []) n h b = absurd (omega arith)
loop_big_endian w16 [] n h b = absurd (omega arith)
loop_big_endian w32 (a ∷ a' ∷ a'' ∷ c ∷ t) n h b = ap ok (omega arith)
loop_big_endian w32 (a ∷ a' ∷ a'' ∷ []) n h b = absurd (omega arith)
loop_big_endian w32 (a ∷ a' ∷ []) n h b = absurd (omega arith)
loop_big_endian w32 (a ∷ []) n h b = absurd (omega arith)
loop_big_endian w32 [] n h b = absurd (omega arith)
loop_big_endian w64 t n h b = absurd (omega arith)

-- The first round of a loop, which reads at the index.
first_round :
    (w : Width) (s : List ℕ) (i : ℕ)
    → length s ≤ i
    → get_loop w s (pos i) (sizeof w) 0 0 ≡ err out_of_range
unfolding get_loop
first_round w8 s i h = rw (to_size_add 0 i, at) (rw (get_elem?-none (0 + i) s (omega arith)))
first_round w16 s i h = rw (to_size_add 0 i, at) (rw (get_elem?-none (0 + i) s (omega arith)))
first_round w32 s i h = rw (to_size_add 0 i, at) (rw (get_elem?-none (0 + i) s (omega arith)))
first_round w64 s i h = rw (to_size_add 0 i, at) (rw (get_elem?-none (0 + i) s (omega arith)))

-- The value at an index as a description of the string alone: nothing behind its end, zero where the
-- type does not fit, and otherwise the bytes in network order.
pub value_at : Width → List ℕ → ℕ → Result ℕ
value_at w s i =
    if ltb (length s) i
    then err out_of_range
    else if ltb (length s) (i + sizeof w)
    then ok 0
    else ok (big_endian (take (sizeof w) (drop i s)))

module _ (w : Width) (d : ByteBuf) (i : ℕ) (small : length d.origin_data < 2 ^ 31) where
  inside :
      IsNarrow w
      → IsBytes d.origin_data
      → i + sizeof w ≤ length d.origin_data
      → get_loop w d.origin_data (pos i) (sizeof w) 0 0
        ≡ ok (big_endian (take (sizeof w) (drop i d.origin_data)))
  inside n b h =
      subst₂
        (λ s j.
          get_loop w s (pos j) (sizeof w) 0 0
          ≡ ok (big_endian (take (sizeof w) (drop i d.origin_data))))
        (take-append-drop i d.origin_data) (omega (arith, length-take i d.origin_data))
        (get_loop-append w (take i d.origin_data) (drop i d.origin_data) (sizeof w) 0 0
          ∙ loop_big_endian w (drop i d.origin_data) n (omega (arith, length-drop i d.origin_data))
              (All-drop (λ c. c < 256) i d.origin_data b))

  guard_wraps :
      length d.origin_data < i
      → i < 2 ^ 31
      → ltb (sub_size (length d.origin_data) i) (sizeof w) ≡ false
  guard_wraps h k = le→ltb _ _ (fits w)
    where
      fits : (w : Width) → sizeof w ≤ sub_size (length d.origin_data) i
      fits w8 = omega arith
      fits w16 = omega arith
      fits w32 = omega arith
      fits w64 = omega arith

  -- `getT` at a type of up to four bytes and an index that is not negative returns the value that
  -- the bytes spell most significant byte first, zero where the type does not fit before the end, and
  -- throws std::out_of_range behind the end, where the unsigned subtraction of its guard wraps.
  pub get_t-value_at :
      IsNarrow w
      → IsBytes d.origin_data
      → i < 2 ^ 31
      → get_t w d (pos i) ≡ value_at w d.origin_data i
  unfolding get_t value_at
  get_t-value_at n b k = elim (Bool-cases (ltb (length d.origin_data) i)) [
    | inl past ↦
        rw (past, guard_wraps (ltb→lt _ _ past) k)
          (first_round w d.origin_data i (omega (arith, ltb→lt _ _ past)))
    | inr upto ↦ rw upto (elim (Bool-cases (ltb (length d.origin_data) (i + sizeof w))) [
      | inl short ↦ rw (
        short,
        lt→ltb (sub_size (length d.origin_data) i) (sizeof w)
            (omega (arith, ltb→lt _ _ short, ltb→le _ _ upto)),
      )
      | inr long ↦
          rw (long, guard_passes w (length d.origin_data) i (ltb→le _ _ long) (omega arith))
            (inside n b (ltb→le _ _ long))
    ])
  ]
