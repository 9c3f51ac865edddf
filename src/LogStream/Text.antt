-- ===== src/LogStream/Text.antt =====
-- The stream refines a text that stops growing where there is no room.
use cpptool_box.Base.{
  ℕ, ◌^◌, ◌<◌, ◌≡◌, refl, ap, ◌∙◌, List, [], ◌∷◌, Option, none, some, if◌then◌else◌, le→ltb, length,
  take_ge, ℤ, to_int32_pos, ok, string_of, c_str, arith, All,
}
use cpptool_box.Utils.Convert.{convert, convert_hex}
use cpptool_box.Utils.Convert.Decimal.{magnitude, convert-integer}
use cpptool_box.Utils.Convert.Hex.{convert_hex-hexadecimal}
use cpptool_box.LogStream.{
  StreamBuffer, to_string, put_number, format_integer, format_pointer, format_real, Item, flag,
  integer, pointer, character, c_string, str, real, put, puts,
}
use cpptool_box.LogStream.Room.{
  IsValid, contents, Leaves, appended, put_in, put_if, append-Leaves, number-Leaves,
}

-- The text of a value.
abbrev pub text : Option (List ℕ) → List ℕ
text none = []
text (some s) = s

integer-Leaves :
    (n : ℕ) (b : StreamBuffer) (i : ℤ)
    → magnitude i < 2 ^ 64
    → IsValid n b
    → Leaves n b (format_integer b i) (put_in n (contents b) (text (convert i)))
unfolding format_integer put_number put_if
integer-Leaves n b i l v =
    let (s, (e, (_, short))) = convert-integer i in
    rw (e) (number-Leaves n b s (omega (arith, short 19 (omega (arith, l)))) v)

pointer-Leaves :
    (n : ℕ) (b : StreamBuffer) (i : ℕ)
    → i < 2 ^ 64
    → IsValid n b
    → Leaves n b (format_pointer b i) (put_in n (contents b) (48 ∷ 120 ∷ text (convert_hex i)))
unfolding format_pointer put_number put_if
pointer-Leaves n b i l v =
    let (s, (e, (_, short))) = convert_hex-hexadecimal i in
    rw (e) (number-Leaves n b (48 ∷ 120 ∷ s) (omega (arith, short 15 (omega (arith, l)))) v)

real-Leaves :
    (n : ℕ) (b : StreamBuffer) (s : List ℕ)
    → length s < 48
    → IsValid n b
    → Leaves n b (format_real b s) (put_in n (contents b) s)
unfolding format_real put_if
real-Leaves n b s l v = rw (take_ge 47 s (omega (arith, l))) (number-Leaves n b s l v)

-- Values of 64 bits at most, and texts of "%.12g", which are shorter than 48.
abbrev pub IsItem : Item → Type 0
IsItem (integer i) = magnitude i < 2 ^ 64
IsItem (pointer i) = i < 2 ^ 64
IsItem (real s) = length s < 48
IsItem v = Unit

-- The stream as a text of at most `n` bytes.
unfoldable pub spec_put : ℕ → List ℕ → Item → List ℕ
spec_put n t (flag v) = appended n t (if v then 49 ∷ [] else 48 ∷ [])
spec_put n t (integer i) = put_in n t (text (convert i))
spec_put n t (pointer i) = put_in n t (48 ∷ 120 ∷ text (convert_hex i))
spec_put n t (character c) = appended n t (c ∷ [])
spec_put n t (c_string none) = appended n t (40 ∷ 110 ∷ 117 ∷ 108 ∷ 108 ∷ 41 ∷ [])
spec_put n t (c_string (some s)) = appended n t (c_str s)
spec_put n t (str s) = appended n t s
spec_put n t (real s) = put_in n t s

unfoldable pub spec_puts : ℕ → List ℕ → List Item → List ℕ
spec_puts n t [] = t
spec_puts n t (v ∷ vs) = spec_puts n (spec_put n t v) vs

put-Leaves :
    (n : ℕ) (b : StreamBuffer) (i : Item)
    → IsItem i
    → IsValid n b
    → Leaves n b (put b i) (spec_put n (contents b) i)
unfolding put spec_put
put-Leaves n b (integer i) h v = integer-Leaves n b i h v
put-Leaves n b (pointer i) h v = pointer-Leaves n b i h v
put-Leaves n b (real s) h v = real-Leaves n b s h v
put-Leaves n b (c_string none) h v = append-Leaves n b (40 ∷ 110 ∷ 117 ∷ 108 ∷ 108 ∷ 41 ∷ []) v
put-Leaves n b (c_string (some s)) h v = append-Leaves n b (c_str s) v
put-Leaves n b (flag x) h v = append-Leaves n b (if x then 49 ∷ [] else 48 ∷ []) v
put-Leaves n b (character c) h v = append-Leaves n b (c ∷ []) v
put-Leaves n b (str s) h v = append-Leaves n b s v

to_string_lem : (n : ℕ) (b : StreamBuffer) → IsValid n b → to_string b ≡ ok (contents b)
to_string_lem n b v =
    ap (string_of b.data_bytes) (to_int32_pos b.cur (omega (arith, v.inside, v.small)))
    ∙ rw (le→ltb (length b.data_bytes) b.cur (omega (arith, v.size, v.inside))) refl

pub puts-Leaves :
    (n : ℕ) (b : StreamBuffer) (vs : List Item)
    → IsValid n b
    → All IsItem vs
    → Leaves n b (puts b vs) (spec_puts n (contents b) vs)
unfolding puts spec_puts
puts-Leaves n b [] v h = (b, (refl, (v, ((λ z. z), refl))))
puts-Leaves n b (i ∷ vs) v h =
    let (c, (e, (w, (z, k)))) = put-Leaves n b i h.0 v in
    let (d, (f, (x, (y, t)))) = puts-Leaves n c vs w h.1 in
    (d, (rw (e) f, (x, ((λ clear. y (z clear)), t ∙ ap (λ u. spec_puts n u vs) k))))

-- No sequence of `operator<<` writes behind the array of n bytes or ends in another fault, and the
-- stream holds what the values spell, less those for which there is no room.
pub puts_refines :
    (n : ℕ) (b : StreamBuffer) (vs : List Item)
    → IsValid n b
    → All IsItem vs
    → (c : StreamBuffer) × ((puts b vs ≡ ok c)
        × (IsValid n c × (to_string c ≡ ok (spec_puts n (contents b) vs))))
puts_refines n b vs v h =
    let (c, (e, (w, (_, t)))) = puts-Leaves n b vs v h in
    (c, (e, (w, to_string_lem n c w ∙ ap ok t)))
