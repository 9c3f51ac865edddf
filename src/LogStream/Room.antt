-- ===== src/LogStream/Room.antt =====
-- Writes to the array of gwcpp/base/LogStream.h: what each leaves, and the bytes behind the text.
use mathlib.Core.List.{append_assoc, append-nil}
use cpptool_box.Base.{
  ℕ, ◌+◌, ◌-◌, ◌^◌, ◌≤◌, ◌<◌, ◌≡◌, refl, sym, subst, ap, ◌∙◌, List, [], ◌∷◌, ◌++◌, Bool, true,
  false, if◌then◌else◌, ltb, leb, le→ltb, ltb→lt, length, take, drop, length-append, length-take,
  length-drop, take-append_left, drop-append_right, drop-drop, All, All-drop, All-append, pos,
  leb_ℤ, ◌-ℤ◌, to_int32, to_int32_pos, to_size, Result, ok, ◌>>=◌, arith,
}
use cpptool_box.LogStream.{StreamBuffer, avail, add, write_at, append, k_max_numeric_size}

-- `cur_` is inside the array or at its end.
pub record IsValid (n : ℕ) (b : StreamBuffer) : Type 0 where
  pub size : length b.data_bytes ≡ n
  pub inside : b.cur ≤ n
  pub small : n < 2 ^ 31

-- The bytes behind the text are zero, and there is one at least.
pub record IsClear (n : ℕ) (b : StreamBuffer) : Type 0 where
  pub room : b.cur < n
  pub zeros : All (λ c. c ≡ 0) (drop b.cur b.data_bytes)

-- What was put in so far.
abbrev pub contents : StreamBuffer → List ℕ
contents b = take b.cur b.data_bytes

avail_lem : (n : ℕ) (b : StreamBuffer) → IsValid n b → avail b ≡ pos (n - b.cur)
avail_lem n b v =
    ap (λ m. to_int32 (pos m -ℤ pos b.cur)) v.size
    ∙ (ap to_int32 (difference n b.cur v.inside)
        ∙ to_int32_pos (n - b.cur) (omega (arith, v.small)))
  where
    difference : (n k : ℕ) → k ≤ n → pos n -ℤ pos k ≡ pos (n - k)
    difference n k h = ground arith

length-contents : (n : ℕ) (b : StreamBuffer) → IsValid n b → length (contents b) ≡ b.cur
length-contents n b v = omega (arith, length-take b.cur b.data_bytes, v.size, v.inside)

-- A write with room for it, and the step of `cur_` over the part of it that is text.
write_at-add :
    (n : ℕ) (b : StreamBuffer) (s t : List ℕ)
    → IsValid n b
    → b.cur + length (s ++ t) ≤ n
    → (c : StreamBuffer) × ((write_at b (s ++ t) ≡ ok c)
        × (IsValid n (add (length s) c)
            × ((contents (add (length s) c) ≡ contents b ++ s)
                × ((c.cur ≡ b.cur)
                    × (drop (b.cur + length s) c.data_bytes
                        ≡ t ++ drop (b.cur + length (s ++ t)) b.data_bytes)))))
unfolding write_at
write_at-add n b s t v h = (
  record b { data_bytes = after },
  (
    rw (le→ltb (length b.data_bytes) (b.cur + length (s ++ t)) (omega (arith, v.size))) refl,
    (
      record {
        size = omega (
          arith,
          v.size,
          length-append (contents b) ((s ++ t) ++ rest),
          length-append (s ++ t) rest,
          length-contents n b v,
          length-drop (b.cur + length (s ++ t)) b.data_bytes,
        );
        inside = omega (arith, length-append s t);
        small = v.small;
      },
      (written, (refl, behind)),
    ),
  ),
)
  where
    rest : List ℕ
    rest = drop (b.cur + length (s ++ t)) b.data_bytes

    after : List ℕ
    after = contents b ++ ((s ++ t) ++ rest)

    written : take (b.cur + length s) after ≡ contents b ++ s
    written =
        ap (take (b.cur + length s)) (
          ap (λ r. contents b ++ r) (append_assoc s t rest)
          ∙ sym (append_assoc (contents b) s (t ++ rest)))
        ∙ take-append_left (b.cur + length s) (contents b ++ s) (t ++ rest)
            (omega (arith, length-append (contents b) s, length-contents n b v))

    behind : drop (b.cur + length s) after ≡ t ++ rest
    behind =
        ap (drop (b.cur + length s)) (
          ap (λ r. contents b ++ r) (append_assoc s t rest)
          ∙ sym (append_assoc (contents b) s (t ++ rest)))
        ∙ drop-append_right (b.cur + length s) (contents b ++ s) (t ++ rest)
            (omega (arith, length-append (contents b) s, length-contents n b v))

-- What an operation on `b` does: it succeeds, keeps the buffer valid and, if it was, clear, and
-- leaves the text `t`.
abbrev pub Leaves : ℕ → StreamBuffer → Result StreamBuffer → List ℕ → Type 0
Leaves n b r t =
    (c : StreamBuffer) × ((r ≡ ok c)
      × (IsValid n c × ((IsClear n b → IsClear n c) × (contents c ≡ t))))

-- A text goes in if there is more room than it takes.
abbrev pub appended : ℕ → List ℕ → List ℕ → List ℕ
appended n t s = if ltb (length s) (n - length t) then t ++ s else t

-- The text of a number goes in if there is room for 48 bytes.
abbrev pub put_in : ℕ → List ℕ → List ℕ → List ℕ
put_in n t s = if leb 48 (n - length t) then t ++ s else t

Leaves-eq :
    {n : ℕ} {b : StreamBuffer} {r r' : Result StreamBuffer} {t t' : List ℕ}
    → r ≡ r'
    → t ≡ t'
    → Leaves n b r t
    → Leaves n b r' t'
Leaves-eq e f (c, (g, (w, (z, k)))) = (c, (sym e ∙ g, (w, (z, k ∙ f))))

-- Both branches of a test that there is room.
unfoldable pub put_if : StreamBuffer → List ℕ → List ℕ → Bool → Result StreamBuffer
put_if b s t test = if test then (write_at b (s ++ t) >>= λ c. ok (add (length s) c)) else ok b

IsClear-add :
    (n : ℕ) (b c : StreamBuffer) (s t : List ℕ)
    → c.cur ≡ b.cur
    → b.cur + length s < n
    → All (λ c. c ≡ 0) t
    → drop (b.cur + length s) c.data_bytes ≡ t ++ drop (b.cur + length (s ++ t)) b.data_bytes
    → IsClear n b
    → IsClear n (add (length s) c)
IsClear-add n b c s t same room zero_bytes behind z = record {
  room = omega (arith, same, room);
  zeros =
      subst (λ k. All (λ c. c ≡ 0) (drop (k + length s) c.data_bytes)) (sym same)
        (subst (All (λ c. c ≡ 0)) (sym behind) (
          All-append (λ c. c ≡ 0) t (drop (b.cur + length (s ++ t)) b.data_bytes) zero_bytes
            (subst (All (λ c. c ≡ 0)) (drop-drop (length (s ++ t)) b.cur b.data_bytes)
              (All-drop (λ c. c ≡ 0) (length (s ++ t)) (drop b.cur b.data_bytes) z.zeros))));
}

put_if-Leaves :
    (n : ℕ) (b : StreamBuffer) (s t : List ℕ) (test : Bool)
    → All (λ c. c ≡ 0) t
    → (test ≡ true → (b.cur + length (s ++ t) ≤ n) × (b.cur + length s < n))
    → IsValid n b
    → Leaves n b (put_if b s t test) (if test then contents b ++ s else contents b)
unfolding put_if
put_if-Leaves n b s t true zero_bytes room v =
    let (c, (e, (w, (k, (same, behind))))) = write_at-add n b s t v (room refl).0 in
    (
      add (length s) c,
      (rw (e) refl, (w, (IsClear-add n b c s t same (room refl).1 zero_bytes behind, k))),
    )
put_if-Leaves n b s t false zero_bytes room v = (b, (refl, (v, ((λ z. z), refl))))

pub append-Leaves :
    (n : ℕ) (b : StreamBuffer) (s : List ℕ)
    → IsValid n b
    → Leaves n b (append b s) (appended n (contents b) s)
unfolding append put_if
append-Leaves n b s v =
    Leaves-eq
      (ap (λ x. put_if b s [] (ltb (length s) (to_size x))) (sym (avail_lem n b v))
        ∙ ap
            (λ u.
              if ltb (length s) (to_size (avail b))
              then (write_at b u >>= λ c. ok (add (length s) c))
              else ok b)
            (append-nil s))
      (ap (λ m. if ltb (length s) (n - m) then contents b ++ s else contents b)
        (sym (length-contents n b v)))
      (put_if-Leaves n b s [] (ltb (length s) (n - b.cur)) tt
        (λ h. (
          omega (arith, ltb→lt (length s) (n - b.cur) h, length-append s []),
          omega (arith, ltb→lt (length s) (n - b.cur) h),
        ))
        v)

room-eq :
    (n : ℕ) (b : StreamBuffer)
    → IsValid n b
    → leb 48 (n - b.cur) ≡ leb_ℤ k_max_numeric_size (avail b)
room-eq n b v = numeral (n - b.cur) ∙ ap (leb_ℤ k_max_numeric_size) (sym (avail_lem n b v))
  where
    numeral : (m : ℕ) → leb 48 m ≡ leb_ℤ (pos 48) (pos m)
    numeral m = ground arith

-- The text of a number, at most 47 bytes of it.
pub number-Leaves :
    (n : ℕ) (b : StreamBuffer) (s : List ℕ)
    → length s < 48
    → IsValid n b
    → Leaves n b
        (put_if b s (0 ∷ []) (leb_ℤ k_max_numeric_size (avail b)))
        (put_in n (contents b) s)
number-Leaves n b s l v =
    Leaves-eq (ap (put_if b s (0 ∷ [])) (room-eq n b v))
      (ap (λ m. if leb 48 (n - m) then contents b ++ s else contents b)
        (sym (length-contents n b v)))
      (put_if-Leaves n b s (0 ∷ []) (leb 48 (n - b.cur)) (refl, tt)
        (λ h. (
          omega (arith, room (n - b.cur) h, length-append s (0 ∷ [])),
          omega (arith, room (n - b.cur) h),
        ))
        v)
  where
    room : (m : ℕ) → leb 48 m ≡ true → 48 ≤ m
    room m h = ground (arith, h)
