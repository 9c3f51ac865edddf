-- ===== src/ByteBuf/Data/Messages.antt =====
-- Sequences of typed values through a buffer: the writers and readers of ByteBufData composed.
use mathlib.Core.List.{append_assoc, append-nil}
use cpptool_box.Base.{
  ℕ, ◌+◌, ◌^◌, ◌≤◌, ◌<◌, ◌≡◌, refl, sym, ap, ◌∙◌, List, [], ◌∷◌, ◌++◌, arith, length, length-append,
  drop, drop-append_right, Result, ok, ◌>>=◌, All, map,
}
use cpptool_box.ByteBuf.Data.{
  ByteBuf, Width, new_data, sizeof, modulus, read_t, write_t, write_data, to_binary, advance,
}
use cpptool_box.ByteBuf.Data.Codec.{IsNarrow, length-to_binary}
use cpptool_box.ByteBuf.Data.Window.{
  IsValid, contents, contents-write_data, write_data-IsValid, length-write_data,
}
use cpptool_box.ByteBuf.Data.Stream.{advance-IsValid, contents-advance, read_t_encoded}

-- A message is a sequence of values with their types.
abbrev pub Message : Type 0
Message = List (Width × ℕ)

abbrev pub IsSendable : Message → Type 0
IsSendable = All (λ m. IsNarrow m.0 × (m.1 < modulus m.0))

pub write_all : ByteBuf → Message → ByteBuf
write_all d [] = d
write_all d ((w, x) ∷ m) = write_all (write_t w d x) m

pub read_all : ByteBuf → List Width → Result (List ℕ × ByteBuf)
read_all d [] = ok ([], d)
read_all d (w ∷ ws) = read_t w d >>= λ (x, d'). read_all d' ws >>= λ (xs, d''). ok (x ∷ xs, d'')

unfoldable pub encode : Message → List ℕ
encode [] = []
encode ((w, x) ∷ m) = to_binary w x ++ encode m

-- Writing a message appends its encoding to the readable bytes.
pub write_all_lem :
    (d : ByteBuf) (m : Message)
    → IsValid d
    → length d.origin_data + length (encode m) < 2 ^ 31
    → IsValid (write_all d m) × (contents (write_all d m) ≡ contents d ++ encode m)
unfolding write_all encode write_t
write_all_lem d [] v h = (v, sym (append-nil (contents d)))
write_all_lem d ((w, x) ∷ m) v h =
    let t : List ℕ = to_binary w x in
    let few : length d.origin_data + length t < 2 ^ 31 =
      omega (arith, length-append t (encode m)) in
    let (v', e) =
      write_all_lem (write_data d t) m (write_data-IsValid d t v few)
        (omega (arith, length-append t (encode m), length-write_data d t v few)) in
    (
      v',
      e
          ∙ ap (λ c. c ++ encode m) (contents-write_data d t v few)
          ∙ append_assoc (contents d) t (encode m),
    )

pub read_all_lem :
    (d : ByteBuf) (m : Message) (rest : List ℕ)
    → IsValid d
    → IsSendable m
    → contents d ≡ encode m ++ rest
    → (d' : ByteBuf) × (read_all d (map (λ p. p.0) m) ≡ ok (map (λ p. p.1) m, d'))
      × IsValid d'
      × (contents d' ≡ rest)
unfolding read_all encode
read_all_lem d [] rest v s e = (d, refl, v, e)
read_all_lem d ((w, x) ∷ m) rest v s e =
    let t : List ℕ = to_binary w x in
    let e' : contents d ≡ t ++ (encode m ++ rest) = e ∙ append_assoc t (encode m) rest in
    let fit : sizeof w ≤ length (contents d) =
      omega (arith, ap length e', length-append t (encode m ++ rest), length-to_binary w x) in
    let (d', r, v', c) =
      read_all_lem (advance d (sizeof w)) m rest (advance-IsValid d v (sizeof w) fit) s.1 (
        contents-advance d v (sizeof w) fit
        ∙ ap (drop (sizeof w)) e'
        ∙ drop-append_right (sizeof w) t (encode m ++ rest) (length-to_binary w x)) in
    (d', rw (read_t_encoded d v w s.0.0 x s.0.1 (encode m ++ rest) e', r), v', c)

-- The empty buffer, written with a message of values of 8, 16 and 32 bits, less than 2 ^ 31 bytes of
-- them, and read back by the same types, gives the message, and nothing is left to read. Values of 64
-- bits are not among them: to read one is undefined.
pub read_all-write_all :
    (m : Message)
    → IsSendable m
    → length (encode m) < 2 ^ 31
    → (d : ByteBuf) × (read_all (write_all new_data m) (map (λ p. p.0) m)
        ≡ ok (map (λ p. p.1) m, d))
      × (contents d ≡ [])
read_all-write_all m s h =
    let (v, e) = write_all_lem new_data m (omega arith) (omega arith) in
    let (d, r, _, c) =
      read_all_lem (write_all new_data m) m [] v s (e ∙ sym (append-nil (encode m))) in
    (d, r, c)
