-- ===== src/Utils/Joined.antt =====
-- The pieces of a split string.
use mathlib.Core.Option
use cpptool_box.Base.{
  ℕ, zero, suc, ◌+◌, ◌-◌, ◌≤◌, ◌<◌, ◌≡◌, refl, sym, ap, ◌∙◌, List, [], ◌∷◌, ◌++◌, true, ◌==◌, none,
  some, arith, le→ltb, Bool-cases, Option-cases, inl, inr, some-injective, length, length-drop,
  take, drop, drop-drop, ok,
}
use cpptool_box.Utils.{is_prefix, find_in, find, split_loop, split}

-- A piece and those behind it, with the separator between each two.
unfoldable pub join : List ℕ → List ℕ → List (List ℕ) → List ℕ
join sep x [] = x
join sep x (y ∷ ys) = x ++ (sep ++ join sep y ys)

-- A prefix has the first byte of the string and a prefix of the rest.
prefix_cons :
    (c d : ℕ) (sep s : List ℕ)
    → is_prefix (c ∷ sep) (d ∷ s) ≡ true
    → (c ≡ d) × (is_prefix sep s ≡ true)
prefix_cons c d sep s h = elim (Bool-cases (c == d)) [
  | inl e ↦ (ground (arith, h, e), ground (arith, h, e))
  | inr e ↦ absurd (ground (arith, h, e))
]

prefix-drop : (sep s : List ℕ) → is_prefix sep s ≡ true → s ≡ sep ++ drop (length sep) s
prefix-drop [] s h = refl
prefix-drop (c ∷ sep) [] h = ground (arith, h)
prefix-drop (c ∷ sep) (d ∷ s) h =
    let e = prefix_cons c d sep s h in
    ap (λ t. d ∷ t) (prefix-drop sep s e.1) ∙ ap (λ x. x ∷ (sep ++ drop (length sep) s)) (sym (e.0))

prefix-length : (sep s : List ℕ) → is_prefix sep s ≡ true → length sep ≤ length s
prefix-length [] s h = omega arith
prefix-length (c ∷ sep) [] h = ground (arith, h)
prefix-length (c ∷ sep) (d ∷ s) h = omega (arith, prefix-length sep s (prefix_cons c d sep s h).1)

zero_add : (n : ℕ) → 0 + n ≡ n
zero_add n = omega arith

suc_add : (j n : ℕ) → suc j + n ≡ suc (j + n)
suc_add j n = omega arith

at_start :
    (sep s : List ℕ) (k : ℕ)
    → is_prefix sep s ≡ true
    → 0 ≡ k
    → (s ≡ take k s ++ (sep ++ drop (k + length sep) s)) × (k + length sep ≤ length s)
at_start sep s k h e = rw (← e, zero_add (length sep)) (prefix-drop sep s h, prefix-length sep s h)

-- What `find_in` finds is an occurrence.
find_in-append :
    (sep s : List ℕ) (k : ℕ)
    → find_in sep s ≡ some k
    → (s ≡ take k s ++ (sep ++ drop (k + length sep) s)) × (k + length sep ≤ length s)
unfolding find_in
find_in-append [] [] k h = at_start [] [] k refl (some-injective h)
find_in-append (c ∷ sep) [] k h = ground (arith, h)
find_in-append sep (d ∷ s) k h = elim (Bool-cases (is_prefix sep (d ∷ s))) [
  | inl e ↦ at_start sep (d ∷ s) k e (some-injective (sym (rw (e) refl) ∙ h))
  | inr e ↦ elim (Option-cases (find_in sep s)) [
    | inl n ↦ absurd (ground (arith, h, e, n))
    | inr (j, f) ↦
        let q : suc j ≡ k = ground (arith, h, e, f) in
        rw (← q, suc_add j (length sep))
          (
            ap (λ t. d ∷ t) ((find_in-append sep s j f).0),
            omega (arith, (find_in-append sep s j f).1),
          )
  ]
]

-- The end of an occurrence is inside the string.
end-le :
    (s sep : List ℕ) (p k : ℕ)
    → p ≤ length s
    → find_in sep (drop p s) ≡ some k
    → p + k + length sep ≤ length s
end-le s sep p k h f = omega (arith, (find_in-append sep (drop p s) k f).1, length-drop p s)

-- The piece in front of an occurrence, the separator and what is behind it make up the string.
piece-append :
    (s sep : List ℕ) (p k : ℕ)
    → find_in sep (drop p s) ≡ some k
    → take k (drop p s) ++ (sep ++ drop (p + k + length sep) s) ≡ drop p s
piece-append s sep p k f =
    rw (assoc p k (length sep), ← drop-drop (k + length sep) p s)
      (sym ((find_in-append sep (drop p s) k f).0))
  where
    assoc : (a b c : ℕ) → a + b + c ≡ a + (b + c)
    assoc a b c = omega arith

find-lem :
    (s sep : List ℕ) (p : ℕ)
    → p ≤ length s
    → find s sep p ≡ Option.map (λ k. p + k) (find_in sep (drop p s))
unfolding find
find-lem s sep p h = rw (le→ltb (length s) p h) refl

-- A round without an occurrence is the last one.
split_loop-last :
    (s sep : List ℕ) (n p : ℕ)
    → p ≤ length s
    → find_in sep (drop p s) ≡ none
    → split_loop s sep (suc n) p ≡ some (ok (drop p s ∷ []))
unfolding split_loop
split_loop-last s sep n p h f = rw (split_loop, find-lem s sep p h, f, le→ltb (length s) p h) refl

-- A round with one cuts the piece off and goes on behind the separator.
split_loop-more :
    (s sep : List ℕ) (n p k : ℕ) (v : List (List ℕ))
    → p ≤ length s
    → find_in sep (drop p s) ≡ some k
    → split_loop s sep n (p + k + length sep) ≡ some (ok v)
    → split_loop s sep (suc n) p ≡ some (ok (take k (drop p s) ∷ v))
unfolding split_loop
split_loop-more s sep n p k v h f r =
    rw (split_loop, find-lem s sep p h, f, r, less p k, le→ltb (length s) p h) refl
  where
    less : (p k : ℕ) → p + k - p ≡ k
    less p k = omega arith

-- The loop of `Split` from `p` on ends, and its pieces make up what lies behind `p`.
split_loop-join :
    (s sep : List ℕ) (n p : ℕ)
    → 0 < length sep
    → p ≤ length s
    → length s < p + n
    → (x : List ℕ) × ((xs : List (List ℕ)) × ((split_loop s sep n p ≡ some (ok (x ∷ xs)))
          × (join sep x xs ≡ drop p s)))
unfolding join
split_loop-join s sep zero p z h l = absurd (omega arith)
split_loop-join s sep (suc n) p z h l = elim (Option-cases (find_in sep (drop p s))) [
  | inl f ↦ (drop p s, ([], (split_loop-last s sep n p h f, refl)))
  | inr (k, f) ↦
      let (y, (ys, (r, j))) =
        split_loop-join s sep n (p + k + length sep) z (end-le s sep p k h f) (omega arith) in
      (
        take k (drop p s),
        (y ∷ ys, (split_loop-more s sep n p k (y ∷ ys) h f r, rw (j) (piece-append s sep p k f))),
      )
]

-- With a separator that is not empty, `Split` ends without a throw, and its pieces with the
-- separator between each two are the string.
pub split-join :
    (src_str sep : List ℕ)
    → 0 < length sep
    → (x : List ℕ) × ((xs : List (List ℕ)) × ((split src_str sep ≡ some (ok (x ∷ xs)))
          × (join sep x xs ≡ src_str)))
unfolding split
split-join src_str sep z =
    split_loop-join src_str sep (suc (length src_str)) 0 z (omega arith) (omega arith)
