-- ===== src/ByteBuf/Fifo.antt =====
-- A buffer that is used by writeBytes and readBytes alone, against a queue of bytes.
use cpptool_box.Base.{
  ℕ, ◌+◌, ◌-◌, ◌^◌, ◌<◌, min, ◌≡◌, refl, sym, ap, ◌∙◌, List, [], ◌∷◌, ◌++◌, arith, le→ltb, length,
  length-take, length-drop, take, drop, drop-drop, drop-length-take, take_ge, ℤ, pos, negsuc,
  pos_part, neg_part, to_int32, to_size, ◌+ℤ◌, Result, ok, ◌>>=◌, substr,
}
use cpptool_box.ByteBuf.Data.{ByteBuf, new_data, write_data}
use cpptool_box.ByteBuf.Data.Window.{
  IsValid, contents, contents-write_data, write_data-IsValid, length-write_data, write_data_pos,
}
use cpptool_box.ByteBuf.Index.{of_string}
use cpptool_box.ByteBuf.Bytes.{write_bytes, read_bytes}

pub data Op : Type 0 where
  put : List ℕ → Op
  get : ℕ → Op

-- The calls on a buffer, and the strings that the reads return.
pub run : ByteBuf → List Op → Result (List (List ℕ))
run d [] = ok []
run d (put t ∷ ops) = write_bytes d t (pos (length t)) >>= λ d'. run d' ops
run d (get n ∷ ops) =
    read_bytes d (pos n) >>= λ (t, d'). run d' ops >>= λ ts. ok (t.origin_data ∷ ts)

-- The same calls on a queue: a read takes what is asked for, or all that is left.
pub run_queue : List ℕ → List Op → List (List ℕ)
run_queue q [] = []
run_queue q (put t ∷ ops) = run_queue (q ++ t) ops
run_queue q (get n ∷ ops) = take n q ∷ run_queue (drop n q) ops

-- The number of bytes that a script writes.
unfoldable pub written : List Op → ℕ
written [] = 0
written (put t ∷ ops) = length t + written ops
written (get n ∷ ops) = written ops

-- A valid buffer with nothing behind its writer position.
pub record IsTight (d : ByteBuf) : Type 0 where
  pub valid : IsValid d
  pub tight : pos_part d.writer_index ≡ length d.origin_data

pub contents-tight :
    (d : ByteBuf) → IsTight d → contents d ≡ drop (pos_part d.reader_index) d.origin_data
contents-tight d v =
    take_ge (pos_part d.writer_index - pos_part d.reader_index)
      (drop (pos_part d.reader_index) d.origin_data)
      (omega (arith, v.tight, length-drop (pos_part d.reader_index) d.origin_data))

pub write_bytes_all :
    (d : ByteBuf) (t : List ℕ) → write_bytes d t (pos (length t)) ≡ ok (write_data d t)
unfolding write_bytes
write_bytes_all d t =
    rw (le→ltb (length t) (length t) (omega arith), take_ge (length t) t (omega arith))

pub write-IsTight :
    (d : ByteBuf) (t : List ℕ)
    → IsTight d
    → length d.origin_data + length t < 2 ^ 31
    → IsTight (write_data d t)
write-IsTight d t v h = record {
  valid = write_data-IsValid d t v.valid h;
  tight =
      ap (λ b. pos_part b.writer_index) (write_data_pos d t v.valid h)
      ∙ omega (arith, v.tight, length-write_data d t v.valid h);
}

-- The buffer after a read of `n` bytes.
abbrev pub after_read : ByteBuf → ℕ → ByteBuf
after_read d n = record d {
  reader_index = pos (pos_part d.reader_index + length (take n (contents d)));
}

pub to_size_nonneg : (z : ℤ) → neg_part z ≡ 0 → to_size z ≡ pos_part z
to_size_nonneg (pos n) h = refl
to_size_nonneg (negsuc n) h = absurd (omega arith)

pub moved :
    (z : ℤ) (k : ℕ)
    → neg_part z ≡ 0
    → pos_part z + k < 2 ^ 31
    → to_int32 (z +ℤ to_int32 (pos k)) ≡ pos (pos_part z + k)
moved z k h l = ground arith

length-take-contents :
    (d : ByteBuf) (n : ℕ)
    → IsTight d
    → length (take n (contents d)) ≡ min n (length d.origin_data - pos_part d.reader_index)
length-take-contents d n v = omega (
  arith,
  length-take n (contents d),
  ap length (contents-tight d v),
  length-drop (pos_part d.reader_index) d.origin_data,
)

substring :
    (d : ByteBuf) (n : ℕ)
    → IsTight d
    → substr d.origin_data (to_size d.reader_index) n
      ≡ ok (take n (drop (pos_part d.reader_index) d.origin_data))
substring d n v = rw (
  to_size_nonneg d.reader_index v.valid.reader_nonneg,
  le→ltb (length d.origin_data) (pos_part d.reader_index) (omega arith),
)

-- A read never fails, and returns what is asked for as far as it is there.
pub read_bytes_tight :
    (d : ByteBuf) (n : ℕ)
    → IsTight d
    → read_bytes d (pos n) ≡ ok (of_string (take n (contents d)), after_read d n)
unfolding read_bytes
read_bytes_tight d n v =
    let k = length-take-contents d n v in
    let c = contents-tight d v in
    let m : to_int32 (d.reader_index +ℤ to_int32 (pos (length (take n (contents d)))))
        ≡ pos (pos_part d.reader_index + length (take n (contents d))) =
      moved d.reader_index (length (take n (contents d))) v.valid.reader_nonneg (omega arith) in
    ap
      (λ b. b >>= λ t. ok (
        of_string t,
        record d { reader_index = to_int32 (d.reader_index +ℤ to_int32 (pos (length t))) },
      ))
      (substring d n v ∙ ap (λ x. ok (take n x)) (sym c))
    ∙ ap (λ z. ok (of_string (take n (contents d)), record d { reader_index = z })) m

pub read-IsTight : (d : ByteBuf) (n : ℕ) → IsTight d → IsTight (after_read d n)
read-IsTight d n v = omega (arith, length-take-contents d n v)

pub contents-after_read :
    (d : ByteBuf) (n : ℕ) → IsTight d → contents (after_read d n) ≡ drop n (contents d)
contents-after_read d n v =
    contents-tight (after_read d n) (read-IsTight d n v)
    ∙ sym (drop-drop (length (take n (contents d))) (pos_part d.reader_index) d.origin_data)
    ∙ ap (drop (length (take n (contents d)))) (sym (contents-tight d v))
    ∙ drop-length-take n (contents d)

-- On a valid buffer with nothing behind its writer position the calls return what the queue of its
-- readable bytes returns, as long as the data stays below 2 ^ 31 bytes.
run-run_queue :
    (d : ByteBuf) (ops : List Op)
    → IsTight d
    → length d.origin_data + written ops < 2 ^ 31
    → run d ops ≡ ok (run_queue (contents d) ops)
unfolding run run_queue written
run-run_queue d [] v h = refl
run-run_queue d (put t ∷ ops) v h =
    let few : length d.origin_data + length t < 2 ^ 31 = omega arith in
    rw (write_bytes_all d t, ← contents-write_data d t v.valid few)
      (run-run_queue (write_data d t) ops (write-IsTight d t v few)
        (omega (arith, length-write_data d t v.valid few)))
run-run_queue d (get n ∷ ops) v h = rw (read_bytes_tight d n v) (
    rw (
      run-run_queue (after_read d n) ops (read-IsTight d n v) (omega arith),
      contents-after_read d n v,
    ))

-- From a new buffer on, writeBytes and readBytes are the two ends of a queue of bytes: no script of
-- calls that writes fewer than 2 ^ 31 bytes throws, and each read returns what the queue holds.
pub run_refines : (ops : List Op) → written ops < 2 ^ 31 → run new_data ops ≡ ok (run_queue [] ops)
run_refines ops h = run-run_queue new_data ops (omega arith) (omega arith)
