-- ===== src/ByteBuf/Data/Stream.antt =====
-- A buffer as a stream: what is written at the writer position is read at the reader position.
use mathlib.Core.Path.{ap₂}
use mathlib.Core.List.{append_assoc}
use cpptool_box.Base.{
  ℕ, ◌+◌, ◌-◌, ◌≤◌, ◌<◌, ◌≡◌, refl, sym, ap, ◌∙◌, List, ◌++◌, arith, length, length-take,
  length-drop, take, drop, take-append-drop, drop-drop, ℤ, pos, negsuc, pos_part, neg_part, ok,
}
use cpptool_box.ByteBuf.Data.{
  ByteBuf, Width, sizeof, modulus, read_t, read_tle, to_binary, to_binary_le, advance,
}
use cpptool_box.ByteBuf.Data.Codec.{
  IsNarrow, get_loop_encoded, get_loop_le_encoded, length-to_binary, length-to_binary_le,
}
use cpptool_box.ByteBuf.Data.Window.{IsValid, contents, drop-take}
use cpptool_box.ByteBuf.Data.Typed.{guard_passes, encoded_fits}

pub pos_of_nonneg : (z : ℤ) → neg_part z ≡ 0 → z ≡ pos (pos_part z)
pos_of_nonneg (pos n) h = refl
pos_of_nonneg (negsuc n) h = absurd (omega arith)

-- The bytes from the reader position on are the readable ones and what stands after them.
from_reader :
    (d : ByteBuf) (t rest : List ℕ)
    → contents d ≡ t ++ rest
    → drop (pos_part d.reader_index) d.origin_data
      ≡ t
        ++ (rest
            ++ drop
                (pos_part d.writer_index - pos_part d.reader_index)
                (drop (pos_part d.reader_index) d.origin_data))
from_reader d t rest e =
    sym (
      take-append-drop (pos_part d.writer_index - pos_part d.reader_index)
        (drop (pos_part d.reader_index) d.origin_data))
    ∙ ap
        (λ x.
          x
          ++ drop (pos_part d.writer_index - pos_part d.reader_index)
              (drop (pos_part d.reader_index) d.origin_data))
        e
    ∙ append_assoc t rest _

module _ (d : ByteBuf) (v : IsValid d) where
  pub length-contents : length (contents d) ≡ pos_part d.writer_index - pos_part d.reader_index
  length-contents = omega (
    arith,
    v.ordered,
    v.within,
    length-take (pos_part d.writer_index - pos_part d.reader_index)
        (drop (pos_part d.reader_index) d.origin_data),
    length-drop (pos_part d.reader_index) d.origin_data,
  )

  advance_pos :
      (n : ℕ)
      → n ≤ length (contents d)
      → advance d n ≡ record d { reader_index = pos (pos_part d.reader_index + n) }
  advance_pos n h = ground (arith, length-contents)

  pub advance-IsValid : (n : ℕ) → n ≤ length (contents d) → IsValid (advance d n)
  advance-IsValid n h = rw (advance_pos n h) (omega (arith, length-contents))

  pub contents-advance :
      (n : ℕ) → n ≤ length (contents d) → contents (advance d n) ≡ drop n (contents d)
  contents-advance n h =
      ap contents (advance_pos n h)
      ∙ ap₂ take (omega arith) (sym (drop-drop n r d.origin_data))
      ∙ sym (drop-take n (w - r) (drop r d.origin_data) (omega (arith, length-contents)))
    where
      r : ℕ
      r = pos_part d.reader_index

      w : ℕ
      w = pos_part d.writer_index

module _ (d : ByteBuf) (v : IsValid d) (w : Width) (n : IsNarrow w) (x : ℕ)
    (fits : x < modulus w) where
  -- Where the readable bytes begin with a value in network order, `readT` returns it and moves past it.
  pub read_t_encoded :
      (rest : List ℕ)
      → contents d ≡ to_binary w x ++ rest
      → read_t w d ≡ ok (x, advance d (sizeof w))
  unfolding read_t
  read_t_encoded rest e =
      let r : ℕ = pos_part d.reader_index in
      rw (pos_of_nonneg d.reader_index v.reader_nonneg) (
        rw
          (guard_passes w (length d.origin_data) r
            (encoded_fits d.origin_data (to_binary w x) _ r (sizeof w) (length-to_binary w x)
              (omega arith) (from_reader d (to_binary w x) rest e))
            (omega arith))
          (rw (
            get_loop_encoded d.origin_data r (omega arith) w x _ n fits
              (from_reader d (to_binary w x) rest e))))

  -- Where the readable bytes begin with a value in the order of `toBinaryLE`, `readTLE` returns it and moves past it.
  pub read_tle_encoded :
      (rest : List ℕ)
      → contents d ≡ to_binary_le w x ++ rest
      → read_tle w d ≡ ok (x, advance d (sizeof w))
  unfolding read_tle
  read_tle_encoded rest e =
      let r : ℕ = pos_part d.reader_index in
      rw (pos_of_nonneg d.reader_index v.reader_nonneg) (
        rw
          (guard_passes w (length d.origin_data) r
            (encoded_fits d.origin_data (to_binary_le w x) _ r (sizeof w) (length-to_binary_le w x)
              (omega arith) (from_reader d (to_binary_le w x) rest e))
            (omega arith))
          (rw (
            get_loop_le_encoded d.origin_data r (omega arith) w x _ n fits
              (from_reader d (to_binary_le w x) rest e))))
