-- ===== src/ByteBuf/Data/Typed.antt =====
-- The typed members of ByteBufData: what was set or written is what is read.
use cpptool_box.Base.{
  ℕ, ◌+◌, ◌^◌, ◌≤◌, ◌<◌, ◌≡◌, ap, List, ◌++◌, arith, length, length-append, length-take,
  length-drop, length-insert_at, take, drop, drop-append_right, pos, ltb, insert_at, ok, sub_size,
  le→ltb, false,
}
use cpptool_box.ByteBuf.Data.{
  ByteBuf, Width, sizeof, modulus, get_t, get_tle, set_t, set_tle, set_data, to_binary,
  to_binary_le,
}
use cpptool_box.ByteBuf.Data.Codec.{
  IsNarrow, get_loop_encoded, get_loop_le_encoded, length-to_binary, length-to_binary_le,
}

-- The guard of the readers passes where `w` bytes are left at the index.
pub guard_passes :
    (w : Width) (n i : ℕ) → i + sizeof w ≤ n → n < 2 ^ 63 → ltb (sub_size n i) (sizeof w) ≡ false
guard_passes w n i h k = le→ltb _ _ (omega arith)

-- The bytes of an encoded value lie inside the string.
pub encoded_fits :
    (s t rest : List ℕ) (i n : ℕ)
    → length t ≡ n
    → i ≤ length s
    → drop i s ≡ t ++ rest
    → i + n ≤ length s
encoded_fits s t rest i n k h e = omega (arith, ap length e, length-drop i s, length-append t rest)

module _ (w : Width) (n : IsNarrow w) (v : ℕ) (fits : v < modulus w) where
  -- A value whose bytes stand at the index is read from there.
  get_t_encoded :
      (d : ByteBuf) (i : ℕ) (rest : List ℕ)
      → length d.origin_data < 2 ^ 31
      → i ≤ length d.origin_data
      → drop i d.origin_data ≡ to_binary w v ++ rest
      → get_t w d (pos i) ≡ ok v
  unfolding get_t
  get_t_encoded d i rest small k e =
      rw
        (guard_passes w (length d.origin_data) i
          (encoded_fits d.origin_data (to_binary w v) rest i (sizeof w) (length-to_binary w v) k e)
          (omega arith))
        (get_loop_encoded d.origin_data i k w v rest n fits e)

  get_tle_encoded :
      (d : ByteBuf) (i : ℕ) (rest : List ℕ)
      → length d.origin_data < 2 ^ 31
      → i ≤ length d.origin_data
      → drop i d.origin_data ≡ to_binary_le w v ++ rest
      → get_tle w d (pos i) ≡ ok v
  unfolding get_tle
  get_tle_encoded d i rest small k e =
      rw
        (guard_passes w (length d.origin_data) i
          (encoded_fits d.origin_data (to_binary_le w v) rest i (sizeof w) (length-to_binary_le w v)
            k e)
          (omega arith))
        (get_loop_le_encoded d.origin_data i k w v rest n fits e)

drop-insert_at : (i : ℕ) (t s : List ℕ) → i ≤ length s → drop i (insert_at i t s) ≡ t ++ drop i s
drop-insert_at i t s h =
    drop-append_right i (take i s) (t ++ drop i s) (omega (arith, length-take i s))

set_data_inside :
    (d : ByteBuf) (i : ℕ) (t : List ℕ)
    → i ≤ length d.origin_data
    → set_data d (pos i) t ≡ record d { origin_data = insert_at i t d.origin_data }
unfolding set_data
set_data_inside d i t h = rw (le→ltb (length d.origin_data) i h)

module _ (w : Width) (n : IsNarrow w) (v : ℕ) (fits : v < modulus w) (d : ByteBuf) (i : ℕ)
    (k : i ≤ length d.origin_data) (small : length d.origin_data + 8 < 2 ^ 31) where
  -- A value set at an index inside the data or at its end is what is read from there, in both byte orders.
  pub get-set :
      (get_t w (set_t w d (pos i) v) (pos i) ≡ ok v)
      × (get_tle w (set_tle w d (pos i) v) (pos i) ≡ ok v)
  unfolding set_t set_tle
  get-set = (
    rw (set_data_inside d i (to_binary w v) k) (
        get_t_encoded w n v fits _ i (drop i d.origin_data)
          (omega (arith, length-to_binary w v, length-insert_at i (to_binary w v) d.origin_data k))
          (omega (arith, length-insert_at i (to_binary w v) d.origin_data k))
          (drop-insert_at i (to_binary w v) d.origin_data k)),
    rw (set_data_inside d i (to_binary_le w v) k) (
        get_tle_encoded w n v fits _ i (drop i d.origin_data)
          (omega
            (arith, length-to_binary_le w v, length-insert_at i (to_binary_le w v) d.origin_data k))
          (omega (arith, length-insert_at i (to_binary_le w v) d.origin_data k))
          (drop-insert_at i (to_binary_le w v) d.origin_data k)),
  )
