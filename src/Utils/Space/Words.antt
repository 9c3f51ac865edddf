-- ===== src/Utils/Space/Words.antt =====
-- SplitBySpace finds the words.
use mathlib.Core.Option
use mathlib.Core.List.{append_assoc, append-nil}
use cpptool_box.Base.{
  ℕ, zero, suc, ◌+◌, ◌-◌, ◌≤◌, ◌<◌, ◌≡◌, refl, sym, ap, ◌∙◌, List, [], ◌∷◌, ◌++◌, Bool, true, false,
  not, Option, none, some, Option-cases, inl, inr, if◌then◌else◌, length, take, drop, length-drop,
  drop-drop, ok, substr, le→ltb, arith,
}
use cpptool_box.Utils.Space.First.{first-cons, first-cons_none, first-drop}
use cpptool_box.Utils.Space.{
  blank, no_blank, first, first_from, split_by_space_loop, split_by_space,
}

-- The longest runs of characters that are not blank, behind a word that has begun.
abbrev pub flush : List ℕ → List (List ℕ) → List (List ℕ)
flush [] ws = ws
flush (c ∷ word) ws = (c ∷ word) ∷ ws

unfoldable pub words : List ℕ → List ℕ → List (List ℕ)
words word [] = flush word []
words word (c ∷ s) =
    let ended = words [] s in
    let longer = words (word ++ (c ∷ [])) s in if blank c then flush word ended else longer

-- A blank is one or the other.
blank-no_blank : (c : ℕ) (b : Bool) → no_blank c ≡ b → blank c ≡ not b
blank-no_blank c b h = not-not (blank c) ∙ ap not h
  where
    not-not : (b : Bool) → b ≡ not (not b)
    not-not true = refl
    not-not false = refl

words-blank :
    (word : List ℕ) (c : ℕ) (s : List ℕ)
    → blank c ≡ true
    → words word (c ∷ s) ≡ flush word (words [] s)
unfolding words
words-blank word c s e = rw (words, e) refl

words-longer :
    (word : List ℕ) (c : ℕ) (s : List ℕ)
    → blank c ≡ false
    → words word (c ∷ s) ≡ words (word ++ (c ∷ [])) s
unfolding words
words-longer word c s e = rw (words, e) refl

skip-none : (t : List ℕ) → first no_blank t ≡ none → words [] t ≡ []
unfolding words
skip-none [] h = refl
skip-none (c ∷ t) h =
    let (e, n) = first-cons_none no_blank c t h in
    words-blank [] c t (blank-no_blank c false e) ∙ skip-none t n

-- What stands in front of the first word does not count.
skip-some : (t : List ℕ) (k : ℕ) → first no_blank t ≡ some k → words [] t ≡ words [] (drop k t)
unfolding words
skip-some [] zero h = refl
skip-some [] (suc k) h = refl
skip-some (c ∷ t) k h = elim (first-cons no_blank c t k h) [
  | inl (e, z) ↦ rw (← z) refl
  | inr (e, (j, (f, z))) ↦
      rw (← z) (words-blank [] c t (blank-no_blank c false e) ∙ skip-some t j f)
]

word-none : (word u : List ℕ) → first blank u ≡ none → words word u ≡ flush (word ++ u) []
unfolding words
word-none word [] h = rw (append-nil word) refl
word-none word (c ∷ u) h =
    let (e, n) = first-cons_none blank c u h in
    words-longer word c u e
    ∙ (word-none (word ++ (c ∷ [])) u n ∙ ap (λ v. flush v []) (append_assoc word (c ∷ []) u))

-- A word ends at the first blank.
word-some :
    (word u : List ℕ) (j : ℕ)
    → first blank u ≡ some j
    → words word u ≡ flush (word ++ take j u) (words [] (drop j u))
unfolding first
word-some word [] j h = absurd (ground (arith, h))
word-some word (c ∷ u) j h = elim (first-cons blank c u j h) [
  | inl (e, z) ↦ rw (← z) (
      words-blank word c u e
      ∙ (ap (flush word) (sym (words-blank [] c u e))
          ∙ ap (λ v. flush v (words [] (c ∷ u))) (sym (append-nil word))))
  | inr (e, (i, (f, z))) ↦ rw (← z) (
      words-longer word c u e
      ∙ (word-some (word ++ (c ∷ [])) u i f
          ∙ ap (λ v. flush v (words [] (drop i u))) (append_assoc word (c ∷ []) (take i u))))
]

-- The first word behind `p`: where it begins, and where it ends.
pub first_from-eq :
    (q : ℕ → Bool) (s : List ℕ) (p : ℕ) (o : Option ℕ)
    → first q (drop p s) ≡ o
    → first_from q s p ≡ Option.map (λ k. p + k) o
unfolding first_from
first_from-eq q s p o h = ap (Option.map (λ k. p + k)) h

substr-take :
    (s : List ℕ) (p k : ℕ) → p ≤ length s → substr s p (p + k - p) ≡ ok (take k (drop p s))
substr-take s p k h = rw (le→ltb (length s) p h, less p k) refl
  where
    less : (p k : ℕ) → p + k - p ≡ k
    less p k = omega arith

-- A word that begins with a character that is not blank is not empty.
flush-word :
    (c : ℕ) (r : List ℕ) (ws : List (List ℕ)) (u : List ℕ) → u ≡ c ∷ r → flush u ws ≡ u ∷ ws
flush-word c r ws u e = rw (e) refl

flush-taken :
    (c : ℕ) (r u : List ℕ) (j : ℕ) (ws : List (List ℕ))
    → u ≡ c ∷ r
    → blank c ≡ false
    → first blank u ≡ some j
    → (flush (take j u) ws ≡ take j u ∷ ws) × (0 < j)
flush-taken c r u j ws e b f = elim (first-cons blank c r j (ap (first blank) (sym e) ∙ f)) [
  | inl (a, z) ↦ absurd (ground (arith, a, b))
  | inr (a, (i, (g, z))) ↦ (rw (e, ← z) refl, omega (arith, z))
]

-- The last word of a text.
last-word :
    (s : List ℕ) (n p q c : ℕ) (r : List ℕ)
    → first_from no_blank s p ≡ some q
    → q ≤ length s
    → drop q s ≡ c ∷ r
    → first blank (drop q s) ≡ none
    → split_by_space_loop s (suc n) p ≡ some (ok (words [] (drop q s)))
unfolding split_by_space_loop
last-word s n p q c r e h d f =
    rw (split_by_space_loop, e, first_from-eq blank s q none f, le→ltb (length s) q h)
      (ap (λ w. some (ok w)) (sym (word-none [] (drop q s) f ∙ flush-word c r [] (drop q s) d)))

-- A word with a blank behind it.
next-word :
    (s : List ℕ) (n p q c j : ℕ) (r : List ℕ)
    → first_from no_blank s p ≡ some q
    → q ≤ length s
    → drop q s ≡ c ∷ r
    → blank c ≡ false
    → first blank (drop q s) ≡ some j
    → split_by_space_loop s n (q + j) ≡ some (ok (words [] (drop (q + j) s)))
    → split_by_space_loop s (suc n) p ≡ some (ok (words [] (drop q s)))
unfolding split_by_space_loop
next-word s n p q c j r e h d b f ih =
    rw (split_by_space_loop, e, first_from-eq blank s q (some j) f, ih, substr-take s q j h)
      (ap (λ w. some (ok w))
        (sym (
          word-some [] (drop q s) j f
          ∙ ((flush-taken c r (drop q s) j (words [] (drop j (drop q s))) d b f).0
              ∙ ap (λ t. take j (drop q s) ∷ words [] t) (drop-drop j q s)))))

loop-words :
    (s : List ℕ) (n p : ℕ)
    → p ≤ length s
    → length s < p + n
    → split_by_space_loop s n p ≡ some (ok (words [] (drop p s)))
unfolding split_by_space_loop
loop-words s zero p h l = absurd (omega arith)
loop-words s (suc n) p h l = elim (Option-cases (first no_blank (drop p s))) [
  | inl e ↦
      rw (split_by_space_loop, first_from-eq no_blank s p none e)
        (ap (λ w. some (ok w)) (sym (skip-none (drop p s) e)))
  | inr (k, e) ↦
      let (c, (r, (d, (a, m)))) = first-drop no_blank (drop p s) k e in
      let q : p + k ≤ length s = omega (arith, m, length-drop p s) in
      let at_word : drop (p + k) s ≡ c ∷ r = sym (drop-drop k p s) ∙ d in
      let skipped : some (ok (words [] (drop (p + k) s))) ≡ some (ok (words [] (drop p s))) =
        ap (λ w. some (ok w)) (sym (skip-some (drop p s) k e ∙ ap (words []) (drop-drop k p s))) in
      elim (Option-cases (first blank (drop (p + k) s))) [
        | inl f ↦
            last-word s n p (p + k) c r (first_from-eq no_blank s p (some k) e) q at_word f
            ∙ skipped
        | inr (j, f) ↦
            next-word s n p (p + k) c j r (first_from-eq no_blank s p (some k) e) q at_word
              (blank-no_blank c true a) f
              (loop-words s n (p + k + j)
                (omega
                  (arith, (first-drop blank (drop (p + k) s) j f).1.1.1.1, length-drop (p + k) s))
                (omega (
                  arith,
                  (flush-taken c r (drop (p + k) s) j [] at_word (blank-no_blank c true a) f).1,
                )))
            ∙ skipped
      ]
]

-- SplitBySpace ends without a throw, and finds the words: the longest runs of characters that are
-- neither a space nor a tab, in order.
pub split_by_space-words :
    (src_str : List ℕ) → split_by_space src_str ≡ some (ok (words [] src_str))
unfolding split_by_space
split_by_space-words src_str =
    loop-words src_str (suc (length src_str)) 0 (omega arith) (omega arith)
