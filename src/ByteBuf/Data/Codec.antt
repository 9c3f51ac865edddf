-- ===== src/ByteBuf/Data/Codec.antt =====
-- The byte order of `toBinary`, `toBinaryLE` and of the loops that read them back.
use mathlib.Core.Path.{ap₂, fun_ext, subst₂}
use cpptool_box.Base.{
  ℕ, zero, suc, ◌+◌, ◌-◌, ◌*◌, ◌%◌, ◌≤◌, ◌<◌, ◌≡◌, refl, ap, ◌∙◌, List, [], ◌∷◌, ◌++◌, arith,
  reverse, length, length-take, take, drop, take-append-drop, sym, pos, ◌+ℤ◌, to_size, ok, ◌>>=◌,
  at,
}
use cpptool_box.ByteBuf.Data.{
  Width, w8, w16, w32, w64, sizeof, modulus, shl_int, int_to, get_loop, get_loop_le, to_binary,
  to_binary_le,
}

-- The widths that the loops read without an undefined shift.
abbrev pub IsNarrow : Width → Type 0
IsNarrow w = sizeof w ≤ 4

pub to_size_add : (a b : ℕ) → to_size (pos a +ℤ pos b) ≡ a + b
to_size_add a b = ground arith

pub at-append : (pre s : List ℕ) (i : ℕ) → at (pre ++ s) (i + length pre) ≡ at s i
at-append [] s i = ap (at s) (omega arith)
at-append (x ∷ pre) s i = rw (shift i (length pre)) (at-append pre s i)
  where
    shift : (i n : ℕ) → i + suc n ≡ suc (i + n)
    shift i n = omega arith

at_shift :
    (pre s : List ℕ) (delta : ℕ)
    → at (pre ++ s) (to_size (pos delta +ℤ pos (length pre))) ≡ at s (to_size (pos delta +ℤ pos 0))
at_shift pre s delta =
    ap (at (pre ++ s)) (to_size_add delta (length pre))
    ∙ at-append pre s delta
    ∙ ap (at s) (omega (arith, to_size_add delta 0))

-- What stands before the index does not matter to the loops.
pub get_loop-append :
    (w : Width) (pre s : List ℕ) (rounds delta v : ℕ)
    → get_loop w (pre ++ s) (pos (length pre)) rounds delta v ≡ get_loop w s (pos 0) rounds delta v
unfolding get_loop
get_loop-append w pre s zero delta v = refl
get_loop-append w pre s (suc r) delta v = ap₂ ◌>>=◌ (at_shift pre s delta) (
    fun_ext λ b.
      ap (◌>>=◌ (shl_int b (8 * (sizeof w - delta - 1))))
        (fun_ext λ p. get_loop-append w pre s r (delta + 1) ((v + int_to w p) % modulus w)))

get_loop_le-append :
    (w : Width) (pre s : List ℕ) (rounds delta v : ℕ)
    → get_loop_le w (pre ++ s) (pos (length pre)) rounds delta v
      ≡ get_loop_le w s (pos 0) rounds delta v
unfolding get_loop_le
get_loop_le-append w pre s zero delta v = refl
get_loop_le-append w pre s (suc r) delta v = ap₂ ◌>>=◌ (at_shift pre s delta) (
    fun_ext λ b.
      ap (◌>>=◌ (shl_int b (8 * delta)))
        (fun_ext λ p. get_loop_le-append w pre s r (delta + 1) ((v + int_to w p) % modulus w)))

-- The bytes of a value, most significant first, read back as the value.
get_loop-to_binary :
    (w : Width) (v : ℕ) (s : List ℕ)
    → IsNarrow w
    → v < modulus w
    → get_loop w (to_binary w v ++ s) (pos 0) (sizeof w) 0 0 ≡ ok v
unfolding get_loop to_binary
get_loop-to_binary w8 v s n h = ap ok (omega arith)
get_loop-to_binary w16 v s n h = ap ok (omega arith)
get_loop-to_binary w32 v s n h = ap ok (omega arith)
get_loop-to_binary w64 v s n h = absurd (omega arith)

get_loop_le-to_binary_le :
    (w : Width) (v : ℕ) (s : List ℕ)
    → IsNarrow w
    → v < modulus w
    → get_loop_le w (to_binary_le w v ++ s) (pos 0) (sizeof w) 0 0 ≡ ok v
unfolding get_loop_le to_binary_le
get_loop_le-to_binary_le w8 v s n h = ap ok (omega arith)
get_loop_le-to_binary_le w16 v s n h = ap ok (omega arith)
get_loop_le-to_binary_le w32 v s n h = ap ok (omega arith)
get_loop_le-to_binary_le w64 v s n h = absurd (omega arith)

-- The two orders are the reverse of one another.
pub to_binary_le-reverse : (w : Width) (v : ℕ) → to_binary_le w v ≡ reverse (to_binary w v)
unfolding to_binary to_binary_le
to_binary_le-reverse w8 v = refl
to_binary_le-reverse w16 v = refl
to_binary_le-reverse w32 v = refl
to_binary_le-reverse w64 v = refl

pub length-to_binary : (w : Width) (v : ℕ) → length (to_binary w v) ≡ sizeof w
unfolding to_binary
length-to_binary w8 v = refl
length-to_binary w16 v = refl
length-to_binary w32 v = refl
length-to_binary w64 v = refl

pub length-to_binary_le : (w : Width) (v : ℕ) → length (to_binary_le w v) ≡ sizeof w
unfolding to_binary_le
length-to_binary_le w8 v = refl
length-to_binary_le w16 v = refl
length-to_binary_le w32 v = refl
length-to_binary_le w64 v = refl

module _ (s : List ℕ) (i : ℕ) (k : i ≤ length s) where
  split_at : {t : List ℕ} → drop i s ≡ t → take i s ++ t ≡ s
  split_at e = ap (◌++◌ (take i s)) (sym e) ∙ take-append-drop i s

  -- A loop started at an index where the bytes of `v` stand returns `v`.
  pub get_loop_encoded :
      (w : Width) (v : ℕ) (rest : List ℕ)
      → IsNarrow w
      → v < modulus w
      → drop i s ≡ to_binary w v ++ rest
      → get_loop w s (pos i) (sizeof w) 0 0 ≡ ok v
  get_loop_encoded w v rest n h e =
      subst₂ (λ t j. get_loop w t (pos j) (sizeof w) 0 0 ≡ ok v) (split_at e)
        (omega (arith, length-take i s))
        (get_loop-append w (take i s) (to_binary w v ++ rest) (sizeof w) 0 0
          ∙ get_loop-to_binary w v rest n h)

  pub get_loop_le_encoded :
      (w : Width) (v : ℕ) (rest : List ℕ)
      → IsNarrow w
      → v < modulus w
      → drop i s ≡ to_binary_le w v ++ rest
      → get_loop_le w s (pos i) (sizeof w) 0 0 ≡ ok v
  get_loop_le_encoded w v rest n h e =
      subst₂ (λ t j. get_loop_le w t (pos j) (sizeof w) 0 0 ≡ ok v) (split_at e)
        (omega (arith, length-take i s))
        (get_loop_le-append w (take i s) (to_binary_le w v ++ rest) (sizeof w) 0 0
          ∙ get_loop_le-to_binary_le w v rest n h)
