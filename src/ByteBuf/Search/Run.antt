-- ===== src/ByteBuf/Search/Run.antt =====
-- The search for a run of one byte against the first run in a list.
use mathlib.Core.Option
use cpptool_box.Base.{
  ℕ, zero, suc, ◌+◌, ◌-◌, ◌≤◌, ◌<◌, ◌≡◌, refl, ap, ◌∙◌, List, [], ◌∷◌, Bool, true, false, ◌&&◌,
  Option, none, some, arith, ◌==◌, if◌then◌else◌, Bool-cases, inl, inr, length, length-take,
  length-drop, take, drop, take-take, ℤ, pos, negsuc, pos_part, neg_part, ◌+ℤ◌, ◌-ℤ◌, ok,
}
use cpptool_box.ByteBuf.Data.{ByteBuf}
use cpptool_box.ByteBuf.Data.Window.{IsValid, contents}
use cpptool_box.ByteBuf.Search.{
  run_of_value, run_at, find_run, bytes_before_run, rounds, offset_from,
}
use cpptool_box.ByteBuf.Search.First.{or_minus_one, pos_add, drop-cons, map-or}

-- Whether a list begins with `n` copies of a byte.
pub begins_with_run : ℕ → ℕ → List ℕ → Bool
begins_with_run value zero s = true
begins_with_run value (suc n) [] = false
begins_with_run value (suc n) (c ∷ s) = (c == value) && begins_with_run value n s

-- The first position at which a run of `n` copies begins.
pub first_run : ℕ → ℕ → List ℕ → Option ℕ
first_run value n [] = none
first_run value n (c ∷ s) =
    if begins_with_run value n (c ∷ s) then some 0 else Option.map suc (first_run value n s)

run_of_value-begins :
    (s : List ℕ) (value n i : ℕ)
    → i + n ≤ length s
    → run_of_value s value n (pos i) ≡ ok (begins_with_run value n (drop i s))
unfolding run_of_value begins_with_run
run_of_value-begins s value zero i h = refl
run_of_value-begins s value (suc n) i h =
    let (c, e, e') = drop-cons s i (omega arith) in
    ground (arith, e, e', pos_add i 1, run_of_value-begins s value n (i + 1))

-- A run at an index and what follows it, cut at `m` bytes: it is in the cut list if it ends before `m`.
begins-take :
    (value n m : ℕ) (s : List ℕ)
    → n ≤ m
    → begins_with_run value n (take m s) ≡ begins_with_run value n s
unfolding begins_with_run
begins-take value zero m s h = refl
begins-take value (suc n) zero s h = absurd (omega arith)
begins-take value (suc n) (suc m) [] h = refl
begins-take value (suc n) (suc m) (c ∷ s) h =
    ap (λ b. (c == value) && b) (begins-take value n m s (omega arith))

begins_short : (value n : ℕ) (s : List ℕ) → length s < n → begins_with_run value n s ≡ false
unfolding begins_with_run
begins_short value zero s h = absurd (omega arith)
begins_short value (suc n) [] h = refl
begins_short value (suc n) (c ∷ s) h = ground (arith, begins_short value n s)

first_run_short : (value n : ℕ) (s : List ℕ) → length s < n → first_run value n s ≡ none
unfolding first_run
first_run_short value n [] h = refl
first_run_short value n (c ∷ s) h =
    rw (begins_short value n (c ∷ s) h, first_run_short value n s (omega arith))

-- One round of the outer loop, at an index that leaves more than `suc n` bytes before the writer.
run_at-begins :
    (s : List ℕ) (value n w i : ℕ)
    → w ≤ length s
    → i + suc n < w
    → run_at s (pos w) (pos (suc n)) value (pos i) ≡ ok (begins_with_run value (suc n) (drop i s))
unfolding run_at begins_with_run
run_at-begins s value n w i h k =
    let (c, e, e') = drop-cons s i (omega arith) in
    ground (arith, e, e', pos_add i 1, pos_add i (suc n), run_of_value-begins s value n (i + 1))

find_run_hit :
    (s : List ℕ) (writer len index : ℤ) (value m : ℕ)
    → run_at s writer len value index ≡ ok true
    → find_run s writer len value (suc m) index ≡ ok (some index)
unfolding find_run
find_run_hit s writer len index value m e = rw (e, find_run)

find_run_miss :
    (s : List ℕ) (writer len index : ℤ) (value m : ℕ)
    → run_at s writer len value index ≡ ok false
    → find_run s writer len value (suc m) index ≡ find_run s writer len value m (index +ℤ pos 1)
unfolding find_run
find_run_miss s writer len index value m e = rw (e, find_run)

module _ (s : List ℕ) (value n w : ℕ) (h : w ≤ length s) where
  -- The bytes that the loop can find a run in: those from the index on, but for the last before the writer.
  abbrev searched : ℕ → List ℕ
  searched i = take (w - 1 - i) (drop i s)

  searched_round :
      (i : ℕ)
      → i + suc n < w
      → first_run value (suc n) (searched i) ≡ (
          if begins_with_run value (suc n) (drop i s)
          then some 0
          else Option.map suc (first_run value (suc n) (searched (i + 1))))
  unfolding first_run
  searched_round i k =
      let (c, e, e') = drop-cons s i (omega arith) in
      let m : w - 1 - i ≡ suc (w - 1 - (i + 1)) = omega arith in
      let same : begins_with_run value (suc n) (c ∷ take (w - 1 - (i + 1)) (drop (i + 1) s))
          ≡ begins_with_run value (suc n) (c ∷ drop (i + 1) s) =
        begins-take value (suc n) (suc (w - 1 - (i + 1))) (c ∷ drop (i + 1) s) (omega arith) in
      rw (m, e') (rw same)

  find_run-first_run :
      (m i : ℕ)
      → m ≡ w - suc n - i
      → find_run s (pos w) (pos (suc n)) value m (pos i)
        ≡ ok (Option.map (λ k. pos (i + k)) (first_run value (suc n) (searched i)))
  find_run-first_run zero i e =
      rw
        (first_run_short value (suc n) (searched i)
          (omega (arith, length-take (w - 1 - i) (drop i s))))
        (unfold find_run in refl)
  find_run-first_run (suc m) i e =
      let r = run_at-begins s value n w i h (omega arith) in
      rw (searched_round i (omega arith))
        (elim (Bool-cases (begins_with_run value (suc n) (drop i s))) [
          | inl hit ↦
              find_run_hit s _ _ (pos i) value m (r ∙ ap ok hit)
              ∙ rw hit (ap (λ j. ok (some (pos j))) (add_zero i))
          | inr miss ↦
              find_run_miss s _ _ (pos i) value m (r ∙ ap ok miss)
              ∙ ap (find_run s (pos w) (pos (suc n)) value m) (pos_add i 1)
              ∙ find_run-first_run m (i + 1) (omega arith)
              ∙ rw miss (ap ok (map-or i (first_run value (suc n) (searched (i + 1)))))
        ])
    where
      add_zero : (i : ℕ) → i ≡ i + 0
      add_zero i = omega arith

-- In a valid buffer `bytesBefore(length, value)`, for a length that is not zero, is the first
-- position of a run of that many copies among the readable bytes without the last of them, and -1
-- if they hold no run.
pub bytes_before_run-first_run :
    (d : ByteBuf) (n value : ℕ)
    → IsValid d
    → bytes_before_run d (pos (suc n)) value
      ≡ ok (or_minus_one 0 (first_run value (suc n) (take (length (contents d) - 1) (contents d))))
unfolding bytes_before_run
bytes_before_run-first_run d n value v = at_positions d.reader_index d.writer_index refl refl
  where
    offset :
        (r : ℕ) (o : Option ℕ)
        → offset_from (pos r) (Option.map (λ k. pos (r + k)) o) ≡ or_minus_one 0 o
    offset r none = refl
    offset r (some k) = ground arith

    at_positions :
        (r w : ℤ)
        → d.reader_index ≡ r
        → d.writer_index ≡ w
        → bytes_before_run d (pos (suc n)) value
          ≡ ok (
              or_minus_one 0
                (first_run value (suc n) (take (length (contents d) - 1) (contents d))))
    at_positions (pos r) (pos w) e e' =
        let h : w ≤ length d.origin_data = omega (arith, v.within, ap pos_part e') in
        let k : r ≤ w = omega (arith, v.ordered, ap pos_part e, ap pos_part e') in
        let m : rounds (pos r) (pos w -ℤ pos (suc n)) ≡ w - suc n - r = ground arith in
        let cut : take (length (take (w - r) (drop r d.origin_data)) - 1)
              (take (w - r) (drop r d.origin_data))
            ≡ take (w - 1 - r) (drop r d.origin_data) =
          ap (λ j. take j (take (w - r) (drop r d.origin_data)))
            (omega (arith, length-take (w - r) (drop r d.origin_data), length-drop r d.origin_data))
          ∙ take-take (w - 1 - r) (w - r) (drop r d.origin_data) (omega arith) in
        rw (e, e', m, cut)
          (rw (find_run-first_run d.origin_data value n w h (w - suc n - r) r refl)
            (ap ok (offset r (first_run value (suc n) (take (w - 1 - r) (drop r d.origin_data))))))
    at_positions (negsuc r) w e e' = absurd (omega (arith, v.reader_nonneg, ap neg_part e))
    at_positions (pos r) (negsuc w) e e' = absurd (omega (arith, v.writer_nonneg, ap neg_part e'))
