-- ===== src/Device/Serial/Read.antt =====
-- What the read callback of a serial device gets.
use mathlib.Core.List.{append_assoc, append-nil}
use cpptool_box.Base.{
  ℕ, ◌+◌, ◌-◌, ◌^◌, ◌≤◌, ◌<◌, ◌≡◌, refl, sym, ap, ◌∙◌, List, [], ◌∷◌, ◌++◌, true, Bool-cases, inl,
  inr, if◌then◌else◌, arith, ltb, ltb→lt, le→ltb, All, length, length-take, length-drop, take, drop,
  take_ge, take-append-drop, pos, pos_part, to_size, to_int32, to_int32_pos, ok,
}
use cpptool_box.ByteBuf.Data.{ByteBuf, write_data}
use cpptool_box.ByteBuf.Data.Window.{
  IsValid, contents, contents-write_data, write_data-IsValid, length-write_data, write_data_pos,
}
use cpptool_box.ByteBuf.Bytes.{write_bytes}
use cpptool_box.ByteBuf.Index.{readable_bytes}
use cpptool_box.Device.Serial.{
  SerialDevice, reads_out, bytes, on_read_callback, write_both, write_rest, deliver, emit,
}

-- The first byte of each string.
unfoldable pub heads : List (List ℕ) → List ℕ
heads [] = []
heads (t ∷ ts) = take 1 t ++ heads ts

write_some :
    (b : ByteBuf) (t : List ℕ) (n : ℕ)
    → n ≤ length t
    → write_bytes b t (pos n) ≡ ok (write_data b (take n t))
unfolding write_bytes
write_some b t n h = rw (le→ltb (length t) n h) refl

-- A buffer that starts at 0, with `c` readable.
record Holds (b : ByteBuf) (c : List ℕ) (n : ℕ) : Type 0 where
  valid : IsValid b
  start : b.reader_index ≡ pos 0
  readable : contents b ≡ c
  size : length b.origin_data ≡ n

write-Holds :
    (b : ByteBuf) (c t : List ℕ) (n : ℕ)
    → Holds b c n
    → n + length t < 2 ^ 31
    → Holds (write_data b t) (c ++ t) (n + length t)
write-Holds b c t n h l =
    let k : length b.origin_data + length t < 2 ^ 31 = omega (arith, h.size) in
    record {
      valid = write_data-IsValid b t h.valid k;
      start = ap (λ x. x.reader_index) (write_data_pos b t h.valid k) ∙ h.start;
      readable = contents-write_data b t h.valid k ∙ ap (λ x. x ++ t) h.readable;
      size = length-write_data b t h.valid k ∙ ap (λ x. x + length t) h.size;
    }

recast : (b : ByteBuf) (c d : List ℕ) (n m : ℕ) → Holds b c n → c ≡ d → n ≡ m → Holds b d m
recast b c d n m h e f = record {
  valid = h.valid;
  start = h.start;
  readable = h.readable ∙ e;
  size = h.size ∙ f;
}

both_lem :
    (b : ByteBuf) (c t : List ℕ) (n : ℕ)
    → Holds b c n
    → length t ≤ 2048
    → n + length t < 2 ^ 31
    → (d : ByteBuf) × (write_both b t ≡ ok d) × Holds d (c ++ t) (n + length t)
both_lem b c t n h s l = elim (Bool-cases (ltb 1024 (length t))) [
  | inl e ↦
      let u = take 1024 t in
      let v = drop 1024 t in
      let gt = ltb→lt 1024 (length t) e in
      let lu : length u ≡ 1024 = omega (arith, length-take 1024 t, gt) in
      let lv : length v ≡ length t - 1024 = length-drop 1024 t in
      let small : to_int32 (pos (length t - 1024)) ≡ pos (length t - 1024) =
        to_int32_pos (length t - 1024) (omega arith) in
      let p = write-Holds b c u n h (omega arith) in
      let q = write-Holds (write_data b u) (c ++ u) v (n + length u) p (omega (arith, gt)) in
      (
        write_data (write_data b u) v,
        rw
            (
              e,
              small,
              write_some b u 1024 (omega arith),
              take_ge 1024 u (omega arith),
              write_some (write_data b u) v (length t - 1024) (omega arith),
              take_ge (length t - 1024) v (omega arith),
            )
            refl,
        recast (write_data (write_data b u) v) ((c ++ u) ++ v) (c ++ t) (n + length u + length v)
            (n + length t) q (append_assoc c u v ∙ ap (λ x. c ++ x) (take-append-drop 1024 t))
            (omega (arith, ltb→lt 1024 (length t) e)),
      )
  | inr e ↦ (
    write_data b t,
    rw (e, write_some b t (length t) (omega arith), take_ge (length t) t (omega arith)) refl,
    write-Holds b c t n h l,
  )
]

rest_lem :
    (ts : List (List ℕ)) (b : ByteBuf) (c : List ℕ) (n : ℕ)
    → Holds b c n
    → All (λ t. 0 < length t) ts
    → n + length ts < 2 ^ 31
    → (d : ByteBuf) × (write_rest b ts ≡ ok d) × Holds d (c ++ heads ts) (n + length ts)
unfolding heads
rest_lem [] b c n h a l =
    (b, refl, recast b c (c ++ []) n (n + 0) h (sym (append-nil c)) (omega arith))
rest_lem (t ∷ ts) b c n h a l =
    let u = take 1 t in
    let lu : length u ≡ 1 = omega (arith, length-take 1 t, a.0) in
    let (d, e, k) =
      rest_lem ts (write_data b u) (c ++ u) (n + length u) (write-Holds b c u n h (omega arith)) a.1
        (omega arith) in
    (
      d,
      rw (write_some b t 1 (omega (arith, a.0)), e) refl,
      recast d ((c ++ u) ++ heads ts) (c ++ (u ++ heads ts)) (n + length u + length ts)
          (n + length (t ∷ ts)) k (append_assoc c u (heads ts)) (omega arith),
    )

delivered :
    (d : ByteBuf) (c : List ℕ) (n : ℕ)
    → Holds d c n
    → take (to_size (readable_bytes d)) d.origin_data ≡ c
delivered d c n h =
    let e : to_size (readable_bytes d) ≡ pos_part d.writer_index - pos_part d.reader_index =
      ground (arith, h.start, h.valid.writer_nonneg) in
    let f : drop (pos_part d.reader_index) d.origin_data ≡ d.origin_data = rw h.start refl in
    ap (λ k. take k d.origin_data) e
    ∙ ap (λ x. take (pos_part d.writer_index - pos_part d.reader_index) x) (sym f)
    ∙ h.readable

-- From a cleared read buffer on, a callback gets the whole result of the first `readv`, and of each
-- later one only the first byte.
pub on_read_callback-delivers :
    (s : SerialDevice) (t : List ℕ) (ts : List (List ℕ))
    → s.read_buffer.reader_index ≡ pos 0
    → s.read_buffer.writer_index ≡ pos 0
    → s.read_callback ≡ true
    → length t ≤ 2048
    → All (λ u. 0 < length u) ts
    → length s.read_buffer.origin_data + length t + length ts < 2 ^ 31
    → (u : SerialDevice) × (on_read_callback (bytes t) ts s ≡ ok u)
      × (u.effects ≡ s.effects ++ (reads_out (t ++ heads ts) ∷ []))
      × (u.state ≡ s.state)
unfolding on_read_callback
on_read_callback-delivers s t ts r w cb l a h =
    let b = s.read_buffer in
    let n = length b.origin_data in
    let v : IsValid b = ground (arith, r, w) in
    let start : Holds b [] n = record {
      valid = v;
      start = r;
      readable = rw (w, r) refl;
      size = refl;
    } in
    let (d, e, p) = both_lem b [] t n start l (omega arith) in
    let (k, f, q) = rest_lem ts d t (n + length t) p a h in
    (
      deliver s k,
      rw (e, f) refl,
      ap
            (λ x.
              (if x
                then emit (reads_out (take (to_size (readable_bytes k)) k.origin_data)) s
                else s).effects)
            cb
          ∙ ap (λ x. s.effects ++ (reads_out x ∷ []))
              (delivered k (t ++ heads ts) (n + length t + length ts) q),
      ap
          (λ x.
            (if x
              then emit (reads_out (take (to_size (readable_bytes k)) k.origin_data)) s
              else s).state)
          cb,
    )
