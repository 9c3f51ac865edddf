-- ===== src/ByteBuf/Signed.antt =====
-- The signed members of ByteBuf.cpp: what is set or written in range is what is got or read.
use cpptool_box.Base.{
  ℕ, ◌+◌, ◌^◌, ◌≤◌, ◌<◌, ◌≡◌, sym, ap, ◌∙◌, List, [], ◌++◌, arith, length, ℤ, pos, pos_part,
  neg_part, signed, pattern_of, ok, map_ok,
}
use mathlib.Core.List.{append-nil}
use cpptool_box.ByteBuf.Data.{
  ByteBuf, w16, w32, write_data, to_binary, to_binary_le, write_t, write_tle, advance,
}
use cpptool_box.ByteBuf.Data.Codec.{length-to_binary, length-to_binary_le}
use cpptool_box.ByteBuf.Data.Typed.{get-set}
use cpptool_box.ByteBuf.Data.Window.{IsValid, contents, contents-write_data, write_data-IsValid}
use cpptool_box.ByteBuf.Data.Stream.{read_t_encoded, read_tle_encoded}
use cpptool_box.ByteBuf.Getters.{get_short, get_short_le, get_int, get_int_le}
use cpptool_box.ByteBuf.Setters.{set_short, set_short_le, set_int, set_int_le}
use cpptool_box.ByteBuf.Readers.{read_int, read_int_le}
use cpptool_box.ByteBuf.Writers.{write_int, write_int_le}

-- An integer that a type of `half * 2` values holds.
pub record Holds (half : ℕ) (v : ℤ) : Type 0 where
  pub above : neg_part v ≤ half
  pub below : pos_part v < half

signed-pattern16 : (v : ℤ) → Holds (2 ^ 15) v → signed 16 (pattern_of 16 v) ≡ v
signed-pattern16 v h = ground arith

signed-pattern32 : (v : ℤ) → Holds (2 ^ 31) v → signed 32 (pattern_of 32 v) ≡ v
signed-pattern32 v h = ground arith

pattern16-lt : (v : ℤ) → pattern_of 16 v < 2 ^ 16
pattern16-lt v = ground arith

pattern32-lt : (v : ℤ) → pattern_of 32 v < 2 ^ 32
pattern32-lt v = ground arith

module _ (d : ByteBuf) (i : ℕ) (k : i ≤ length d.origin_data)
    (small : length d.origin_data + 8 < 2 ^ 31) (v : ℤ) where
  -- A value of `int16_t` set at an index inside the data or at its end is got from there, in both
  -- byte orders.
  pub get_short-set_short :
      Holds (2 ^ 15) v
      → (get_short (set_short d (pos i) v) (pos i) ≡ ok v)
        × (get_short_le (set_short_le d (pos i) v) (pos i) ≡ ok v)
  unfolding get_short get_short_le set_short set_short_le
  get_short-set_short h =
      let (be, le) = get-set w16 (omega arith) (pattern_of 16 v) (pattern16-lt v) d i k small in
      (
        ap (map_ok (signed 16)) be ∙ ap ok (signed-pattern16 v h),
        ap (map_ok (signed 16)) le ∙ ap ok (signed-pattern16 v h),
      )

  -- A value of `int32_t` set at an index inside the data or at its end is got from there, in both
  -- byte orders.
  pub get_int-set_int :
      Holds (2 ^ 31) v
      → (get_int (set_int d (pos i) v) (pos i) ≡ ok v)
        × (get_int_le (set_int_le d (pos i) v) (pos i) ≡ ok v)
  unfolding get_int get_int_le set_int set_int_le
  get_int-set_int h =
      let (be, le) = get-set w32 (omega arith) (pattern_of 32 v) (pattern32-lt v) d i k small in
      (
        ap (map_ok (signed 32)) be ∙ ap ok (signed-pattern32 v h),
        ap (map_ok (signed 32)) le ∙ ap ok (signed-pattern32 v h),
      )

module _ (d : ByteBuf) (v : IsValid d) (small : length d.origin_data + 4 < 2 ^ 31)
    (drained : contents d ≡ []) (x : ℤ) (h : Holds (2 ^ 31) x) where
  -- What is written into a buffer with nothing left to read is what is read next, and the reader
  -- position moves past it; the write keeps the buffer valid.
  pub read_int-write_int :
      IsValid (write_int d x)
      × (read_int (write_int d x) ≡ ok (x, advance (write_int d x) 4))
      × (read_int_le (write_int_le d x) ≡ ok (x, advance (write_int_le d x) 4))
  unfolding read_int read_int_le write_int write_int_le write_t write_tle
  read_int-write_int =
      let n : ℕ = pattern_of 32 x in
      let few = small in
      let be : List ℕ = to_binary w32 n in
      let le : List ℕ = to_binary_le w32 n in
      let fit = pattern32-lt x in
      let s : length d.origin_data + length be < 2 ^ 31 = omega (arith, length-to_binary w32 n) in
      let s' : length d.origin_data + length le < 2 ^ 31 =
        omega (arith, length-to_binary_le w32 n) in
      (
        write_data-IsValid d be v s,
        ap (map_ok (λ (y, b). (signed 32 y, b))) (
              read_t_encoded (write_data d be) (write_data-IsValid d be v s) w32 (omega arith) n fit
                [] (contents-write_data d be v s ∙ ap (λ c. c ++ be) drained ∙ sym (append-nil be)))
            ∙ ap (λ z. ok (z, advance (write_data d be) 4)) (signed-pattern32 x h),
        ap (map_ok (λ (y, b). (signed 32 y, b))) (
              read_tle_encoded (write_data d le) (write_data-IsValid d le v s') w32 (omega arith) n
                fit []
                (contents-write_data d le v s' ∙ ap (λ c. c ++ le) drained ∙ sym (append-nil le)))
            ∙ ap (λ z. ok (z, advance (write_data d le) 4)) (signed-pattern32 x h),
      )
