-- ===== src/ByteBuf/Data/Wide.antt =====
-- The 64-bit readers: the shifts of `getT` and `getTLE` are made on `int`, so they leave the language.
use cpptool_box.Base.{
  ℕ, ◌+◌, ◌^◌, ◌≤◌, ◌<◌, ◌≡◌, List, arith, length, pos, to_size, ◌+ℤ◌, ok, err, undefined, at,
  at-some,
}
use cpptool_box.ByteBuf.Data.{ByteBuf, w64, get_t, get_tle, get_loop, get_loop_le}
use cpptool_box.ByteBuf.Data.Codec.{to_size_add}
use cpptool_box.ByteBuf.Data.Typed.{guard_passes}

at_index :
    (s : List ℕ) (delta i : ℕ)
    → delta + i < length s
    → (b : ℕ) × (at s (to_size (pos delta +ℤ pos i)) ≡ ok b)
at_index s delta i h = rw to_size_add (at-some s (delta + i) h)

module _ (d : ByteBuf) (i : ℕ) (h : i + 8 ≤ length d.origin_data)
    (small : length d.origin_data < 2 ^ 31) where
  -- `getLong` and `getLongLE` are undefined at every index from which eight bytes are there to be read.
  pub get_t_wide : (get_t w64 d (pos i) ≡ err undefined) × (get_tle w64 d (pos i) ≡ err undefined)
  unfolding get_t get_tle get_loop get_loop_le
  get_t_wide =
      let (b0, e0) = at_index d.origin_data 0 i (omega arith) in
      let (b1, e1) = at_index d.origin_data 1 i (omega arith) in
      let (b2, e2) = at_index d.origin_data 2 i (omega arith) in
      let (b3, e3) = at_index d.origin_data 3 i (omega arith) in
      let (b4, e4) = at_index d.origin_data 4 i (omega arith) in
      let g = guard_passes w64 (length d.origin_data) i h (omega arith) in
      (rw (g, e0), rw (g, e0, e1, e2, e3, e4))
