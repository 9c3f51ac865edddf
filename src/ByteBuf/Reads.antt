-- ===== src/ByteBuf/Reads.antt =====
-- The reading members of gwcpp/base/ByteBuf move the reader position only.
use cpptool_box.Base.{
  ℕ, ◌+◌, ◌≤◌, ◌≡◌, refl, sym, ap, subst, ◌∙◌, List, Bool, true, false, if◌then◌else◌, ltb, le→ltb,
  length, take, drop, length-take, length-drop, pos, pos_part, to_size, sub_size, Result, ok, err,
  ◌>>=◌, arith,
}
use cpptool_box.ByteBuf.Data.{
  ByteBuf, Width, sizeof, get_loop, get_loop_le, read_t, read_tle, advance,
}
use cpptool_box.ByteBuf.Data.Window.{IsValid, contents}
use cpptool_box.ByteBuf.Data.Stream.{advance-IsValid, length-contents}
use cpptool_box.ByteBuf.Bytes.{read_bytes}
use cpptool_box.ByteBuf.Fifo.{to_size_nonneg, moved}

-- The buffer behind a read.
abbrev left_over {ℓ} : {A : Type ℓ} → ByteBuf → Result (A × ByteBuf) → ByteBuf
left_over d (ok (x, d')) = d'
left_over d (err e) = d

-- A typed read that finds no room returns 0 and moves nothing.
abbrev typed : ByteBuf → Width → Bool → Result ℕ → Result (ℕ × ByteBuf)
typed d w few r = if few then ok (0, d) else (r >>= λ v. ok (v, advance d (sizeof w)))

typed-IsValid :
    (d : ByteBuf) (w : Width) (few : Bool) (r : Result ℕ)
    → IsValid d
    → sizeof w ≤ length (contents d)
    → IsValid (left_over d (typed d w few r))
typed-IsValid d w true r v h = v
typed-IsValid d w false (ok x) v h = advance-IsValid d v (sizeof w) h
typed-IsValid d w false (err e) v h = v

pub read_t-IsValid :
    (d d' : ByteBuf) (w : Width) (x : ℕ)
    → IsValid d
    → sizeof w ≤ length (contents d)
    → read_t w d ≡ ok (x, d')
    → IsValid d'
unfolding read_t
read_t-IsValid d d' w x v h e = subst IsValid (ap (left_over d) e) (
    typed-IsValid d w (ltb (sub_size (length d.origin_data) (to_size d.reader_index)) (sizeof w))
      (get_loop w d.origin_data d.reader_index (sizeof w) 0 0) v h)

pub read_tle-IsValid :
    (d d' : ByteBuf) (w : Width) (x : ℕ)
    → IsValid d
    → sizeof w ≤ length (contents d)
    → read_tle w d ≡ ok (x, d')
    → IsValid d'
unfolding read_tle
read_tle-IsValid d d' w x v h e = subst IsValid (ap (left_over d) e) (
    typed-IsValid d w (ltb (sub_size (length d.origin_data) (to_size d.reader_index)) (sizeof w))
      (get_loop_le w d.origin_data d.reader_index (sizeof w) 0 0) v h)

read_bytes_lem :
    (d : ByteBuf) (n : ℕ)
    → IsValid d
    → n ≤ length (contents d)
    → left_over d (read_bytes d (pos n)) ≡ record d {
      reader_index = pos (
          pos_part d.reader_index + length (take n (drop (pos_part d.reader_index) d.origin_data)));
    }
unfolding read_bytes
read_bytes_lem d n v h =
    let t : List ℕ = take n (drop (pos_part d.reader_index) d.origin_data) in
    rw
      (
        to_size_nonneg d.reader_index v.reader_nonneg,
        le→ltb (length d.origin_data) (pos_part d.reader_index)
            (omega (arith, v.ordered, v.within)),
      )
      (ap (λ z. record d { reader_index = z })
        (moved d.reader_index (length t) v.reader_nonneg (
          omega (
            arith,
            v.small,
            v.ordered,
            v.within,
            length-take n (drop (pos_part d.reader_index) d.origin_data),
            length-drop (pos_part d.reader_index) d.origin_data,
          ))))

pub read_bytes-IsValid :
    (d d' b : ByteBuf) (n : ℕ)
    → IsValid d
    → n ≤ length (contents d)
    → read_bytes d (pos n) ≡ ok (b, d')
    → IsValid d'
read_bytes-IsValid d d' b n v h e =
    subst IsValid (sym (read_bytes_lem d n v h) ∙ ap (left_over d) e) (record {
      reader_nonneg = refl;
      writer_nonneg = v.writer_nonneg;
      ordered = omega (
        arith,
        h,
        length-contents d v,
        v.ordered,
        length-take n (drop (pos_part d.reader_index) d.origin_data),
      );
      within = v.within;
      small = v.small;
    })
