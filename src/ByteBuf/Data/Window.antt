-- ===== src/ByteBuf/Data/Window.antt =====
-- The readable part of a buffer, and what an insertion at the writer position does to it.
use cpptool_box.Base.{
  ℕ, zero, suc, ◌+◌, ◌-◌, ◌^◌, ◌≤◌, ◌<◌, ◌≡◌, refl, ap, ◌∙◌, List, [], ◌∷◌, ◌++◌, arith, length,
  length-append, length-take, length-drop, length-insert_at, take, drop, drop-append,
  take-append_left, pos, pos_part, neg_part, insert_at,
}
use mathlib.Core.List.{append_assoc}
use cpptool_box.ByteBuf.Data.{ByteBuf, write_data}

-- The bytes from the reader position up to the writer position.
abbrev pub contents : ByteBuf → List ℕ
contents d =
    take (pos_part d.writer_index - pos_part d.reader_index)
      (drop (pos_part d.reader_index) d.origin_data)

-- 0 <= readerIndex <= writerIndex <= size, as the header of ByteBuf.h draws it.
pub record IsValid (d : ByteBuf) : Type 0 where
  pub reader_nonneg : neg_part d.reader_index ≡ 0
  pub writer_nonneg : neg_part d.writer_index ≡ 0
  pub ordered : pos_part d.reader_index ≤ pos_part d.writer_index
  pub within : pos_part d.writer_index ≤ length d.origin_data
  pub small : length d.origin_data < 2 ^ 31

module _ {ℓ} {A : Type ℓ} where
  pub drop-take : (r w : ℕ) (s : List A) → r ≤ w → drop r (take w s) ≡ take (w - r) (drop r s)
  drop-take zero w s h = ap (λ k. take k s) (omega arith)
  drop-take (suc r) zero s h = absurd (omega arith)
  drop-take (suc r) (suc w) [] h = nil (w - r) (suc w - suc r) (omega arith)
    where
      nil : (a b : ℕ) → a ≡ b → [] ≡ take {A = A} b []
      nil a zero e = refl
      nil a (suc b) e = refl
  drop-take (suc r) (suc w) (x ∷ s) h =
      drop-take r w s (omega arith) ∙ ap (λ k. take k (drop r s)) (omega arith)

  -- The window from `r` to the end of what is inserted at `w`.
  pub window_insert :
      (r w : ℕ) (s t : List A)
      → r ≤ w
      → w ≤ length s
      → take (w + length t - r) (drop r (take w s ++ (t ++ drop w s)))
        ≡ take (w - r) (drop r s) ++ t
  window_insert r w s t h k =
      rw
        (
          drop-append r (take w s) (t ++ drop w s) (omega (arith, length-take w s)),
          drop-take r w s h,
          ← append_assoc,
        )
        (take-append_left (w + length t - r) (take (w - r) (drop r s) ++ t) (drop w s) (
          omega (
            arith,
            length-append (take (w - r) (drop r s)) t,
            length-take (w - r) (drop r s),
            length-drop r s,
          )))

pub write_data_pos :
    (d : ByteBuf) (t : List ℕ)
    → IsValid d
    → length d.origin_data + length t < 2 ^ 31
    → write_data d t ≡ record d {
      origin_data = insert_at (pos_part d.writer_index) t d.origin_data;
      writer_index = pos (pos_part d.writer_index + length t);
    }
unfolding write_data
write_data_pos d t v h = ground arith

-- A write at the writer position appends to the readable bytes.
pub contents-write_data :
    (d : ByteBuf) (t : List ℕ)
    → IsValid d
    → length d.origin_data + length t < 2 ^ 31
    → contents (write_data d t) ≡ contents d ++ t
contents-write_data d t v h = rw (write_data_pos d t v h) (
    window_insert (pos_part d.reader_index) (pos_part d.writer_index) d.origin_data t v.ordered
      v.within)

pub write_data-IsValid :
    (d : ByteBuf) (t : List ℕ)
    → IsValid d
    → length d.origin_data + length t < 2 ^ 31
    → IsValid (write_data d t)
write_data-IsValid d t v h =
    rw (write_data_pos d t v h)
      (omega (arith, length-insert_at (pos_part d.writer_index) t d.origin_data v.within))

pub length-write_data :
    (d : ByteBuf) (t : List ℕ)
    → IsValid d
    → length d.origin_data + length t < 2 ^ 31
    → length (write_data d t).origin_data ≡ length d.origin_data + length t
length-write_data d t v h =
    rw (write_data_pos d t v h)
      (length-insert_at (pos_part d.writer_index) t d.origin_data v.within)
