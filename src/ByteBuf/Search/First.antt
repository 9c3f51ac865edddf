-- ===== src/ByteBuf/Search/First.antt =====
-- The searches for one byte against the first position of a byte in a list.
use mathlib.Core.Option
use native.Mathlib.Numerals.{add-one}
use cpptool_box.Base.{
  ℕ, zero, suc, ◌+◌, ◌-◌, ◌≤◌, ◌<◌, ◌≡◌, refl, ap, ◌∙◌, List, [], ◌∷◌, true, false, Option, none,
  some, arith, ltb, ◌==◌, ltb→lt, ltb→le, if◌then◌else◌, Bool-cases, inl, inr, length, take, drop,
  drop_ge, ℤ, pos, negsuc, pos_part, neg_part, ◌+ℤ◌, to_size, ◌⊎◌, ok, at,
}
use cpptool_box.ByteBuf.Data.{ByteBuf}
use cpptool_box.ByteBuf.Data.Window.{IsValid, contents}
use cpptool_box.ByteBuf.Search.{
  find_value, bytes_before, index_of_loop, index_of, rounds, offset_from,
}

-- The first position of a byte.
pub position : ℕ → List ℕ → Option ℕ
position value [] = none
position value (c ∷ s) = if c == value then some 0 else Option.map suc (position value s)

-- A position behind `i` as the code returns it.
abbrev pub or_minus_one : ℕ → Option ℕ → ℤ
or_minus_one i none = negsuc 0
or_minus_one i (some k) = pos (i + k)

pub pos_add : (a b : ℕ) → pos a +ℤ pos b ≡ pos (a + b)
pos_add a b = ground arith

or_minus_one-suc :
    (i : ℕ) (o : Option ℕ) → or_minus_one (i + 1) o ≡ or_minus_one i (Option.map suc o)
or_minus_one-suc i none = refl
or_minus_one-suc i (some k) = ap pos (omega arith)

pub drop-cons :
    (s : List ℕ) (i : ℕ)
    → i < length s
    → (c : ℕ) × (at s i ≡ ok c) × (drop i s ≡ c ∷ drop (i + 1) s)
drop-cons [] i h = absurd (omega arith)
drop-cons (c ∷ s) zero h = (c, refl, refl)
drop-cons (c ∷ s) (suc i) h = rw (suc-add i) (drop-cons s i (omega arith))
  where
    suc-add : (i : ℕ) → suc i + 1 ≡ suc (i + 1)
    suc-add i = omega arith

pub map-or :
    (i : ℕ) (o : Option ℕ)
    → Option.map (λ k. pos (i + 1 + k)) o ≡ Option.map (λ k. pos (i + k)) (Option.map suc o)
map-or i none = refl
map-or i (some k) = ap (λ j. some (pos j)) (omega arith)

find_value_hit :
    (s : List ℕ) (value n c : ℕ) (index : ℤ)
    → at s (to_size index) ≡ ok c
    → (c == value) ≡ true
    → find_value s value (suc n) index ≡ ok (some index)
unfolding find_value
find_value_hit s value n c index e h = ground arith

find_value_miss :
    (s : List ℕ) (value n c : ℕ) (index : ℤ)
    → at s (to_size index) ≡ ok c
    → (c == value) ≡ false
    → find_value s value (suc n) index ≡ find_value s value n (index +ℤ pos 1)
unfolding find_value
find_value_miss s value n c index e h = ground arith

-- The loop of `bytesBefore` finds the first position in the bytes that it goes through.
find_value-position :
    (s : List ℕ) (value n i : ℕ)
    → i + n ≤ length s
    → find_value s value n (pos i)
      ≡ ok (Option.map (λ k. pos (i + k)) (position value (take n (drop i s))))
unfolding position
find_value-position s value zero i h = unfold find_value in refl
find_value-position s value (suc n) i h =
    let (c, e, e') = drop-cons s i (omega arith) in
    elim (Bool-cases (c == value)) [
      | inl hit ↦
          find_value_hit s value n c (pos i) e hit
          ∙ rw e' (rw hit (ap (λ j. ok (some (pos j))) (omega arith)))
      | inr miss ↦
          find_value_miss s value n c (pos i) e miss
          ∙ ap (find_value s value n) (pos_add i 1)
          ∙ find_value-position s value n (i + 1) (omega arith)
          ∙ rw e' (rw miss (ap ok (map-or i (position value (take n (drop (i + 1) s))))))
    ]

-- In a valid buffer `bytesBefore(value)` is the first position of the value among the readable bytes,
-- counted from the reader position, and -1 if it is not among them.
pub bytes_before-position :
    (d : ByteBuf) (value : ℕ)
    → IsValid d
    → bytes_before d value ≡ ok (or_minus_one 0 (position value (contents d)))
unfolding bytes_before
bytes_before-position d value v = at_positions d.reader_index d.writer_index refl refl
  where
    offset :
        (r : ℕ) (o : Option ℕ)
        → offset_from (pos r) (Option.map (λ k. pos (r + k)) o) ≡ or_minus_one 0 o
    offset r none = refl
    offset r (some k) = ground arith

    at_positions :
        (r w : ℤ)
        → d.reader_index ≡ r
        → d.writer_index ≡ w
        → bytes_before d value ≡ ok (or_minus_one 0 (position value (contents d)))
    at_positions (pos r) (pos w) e e' =
        let n : rounds (pos r) (pos w) ≡ w - r =
          ground (arith, v.ordered, ap pos_part e, ap pos_part e') in
        rw (e, e', n)
          (rw
            (find_value-position d.origin_data value (w - r) r
              (omega (arith, v.ordered, v.within, ap pos_part e, ap pos_part e')))
            (ap ok (offset r (position value (take (w - r) (drop r d.origin_data))))))
    at_positions (negsuc r) w e e' = absurd (omega (arith, v.reader_nonneg, ap neg_part e))
    at_positions (pos r) (negsuc w) e e' = absurd (omega (arith, v.writer_nonneg, ap neg_part e'))

index_of_stop :
    (s : List ℕ) (value to fuel i : ℕ)
    → (length s ≤ i) ⊎ (to ≤ i)
    → index_of_loop s (pos to) value (suc fuel) (pos i) ≡ some (ok (negsuc 0))
unfolding index_of_loop
index_of_stop s value to fuel i h = ground arith

index_of_hit :
    (s : List ℕ) (value to fuel i c : ℕ)
    → i < length s
    → i < to
    → at s i ≡ ok c
    → (c == value) ≡ true
    → index_of_loop s (pos to) value (suc fuel) (pos i) ≡ some (ok (pos i))
unfolding index_of_loop
index_of_hit s value to fuel i c h k e t = ground arith

index_of_miss :
    (s : List ℕ) (value to fuel i c : ℕ)
    → i < length s
    → i < to
    → at s i ≡ ok c
    → (c == value) ≡ false
    → index_of_loop s (pos to) value (suc fuel) (pos i)
      ≡ index_of_loop s (pos to) value fuel (pos (i + 1))
unfolding index_of_loop
index_of_miss s value to fuel i c h k e t = ground (arith, pos_add i 1)

position_beyond :
    (s : List ℕ) (value to i : ℕ)
    → (length s ≤ i) ⊎ (to ≤ i)
    → position value (take (to - i) (drop i s)) ≡ none
unfolding position
position_beyond s value to i (inl h) = rw (drop_ge i s h) (ap (position value) (take-nil (to - i)))
  where
    take-nil : (n : ℕ) → take {A = ℕ} n [] ≡ []
    take-nil zero = refl
    take-nil (suc n) = refl
position_beyond s value to i (inr h) = let n : to - i ≡ 0 = omega arith in rw n

-- One round inside the range.
index_of_round :
    (s : List ℕ) (value to fuel i : ℕ)
    → i < length s
    → i < to
    → index_of_loop s (pos to) value (suc fuel) (pos (i + 1))
      ≡ some (ok (or_minus_one (i + 1) (position value (take (to - (i + 1)) (drop (i + 1) s)))))
    → index_of_loop s (pos to) value (suc (suc fuel)) (pos i)
      ≡ some (ok (or_minus_one i (position value (take (to - i) (drop i s)))))
unfolding position
index_of_round s value to fuel i h k ih =
    let (c, e, e') = drop-cons s i h in
    let n : to - i ≡ suc (to - (i + 1)) = omega arith in
    rw (n, e')
      (elim (Bool-cases (c == value)) [
        | inl hit ↦
            index_of_hit s value to (suc fuel) i c h k e hit
            ∙ rw hit (ap (λ j. some (ok (pos j))) (omega arith))
        | inr miss ↦
            index_of_miss s value to (suc fuel) i c h k e miss
            ∙ ih
            ∙ rw miss (
                ap (λ z. some (ok z))
                  (or_minus_one-suc i (position value (take (to - (i + 1)) (drop (i + 1) s)))))
      ])

-- The loop of `indexOf` with enough fuel.
index_of_loop-position :
    (s : List ℕ) (value to fuel i : ℕ)
    → length s ≤ i + fuel
    → index_of_loop s (pos to) value (suc fuel) (pos i)
      ≡ some (ok (or_minus_one i (position value (take (to - i) (drop i s)))))
index_of_loop-position s value to zero i h =
    let out : (length s ≤ i) ⊎ (to ≤ i) = inl (omega arith) in
    index_of_stop s value to 0 i out ∙ rw (position_beyond s value to i out)
index_of_loop-position s value to (suc fuel) i h = elim (Bool-cases (ltb i (length s))) [
  | inr past ↦
      let out : (length s ≤ i) ⊎ (to ≤ i) = inl (ltb→le _ _ past) in
      index_of_stop s value to (suc fuel) i out ∙ rw (position_beyond s value to i out)
  | inl in_string ↦ elim (Bool-cases (ltb i to)) [
    | inr past ↦
        let out : (length s ≤ i) ⊎ (to ≤ i) = inr (ltb→le _ _ past) in
        index_of_stop s value to (suc fuel) i out ∙ rw (position_beyond s value to i out)
    | inl in_range ↦
        index_of_round s value to fuel i (ltb→lt _ _ in_string) (ltb→lt _ _ in_range)
          (index_of_loop-position s value to fuel (i + 1) (omega arith))
  ]
]

-- `indexOf(from, to, value)` from an index that is not negative ends, and returns the first position
-- of the value from there on and before `to`, or -1.
pub index_of-position :
    (d : ByteBuf) (value from to : ℕ)
    → index_of d (pos from) (pos to) value
      ≡ some (ok (or_minus_one from (position value (take (to - from) (drop from d.origin_data)))))
unfolding index_of
index_of-position d value from to =
    rw (add-one (length d.origin_data))
      (index_of_loop-position d.origin_data value to (length d.origin_data) from (omega arith))
