-- ===== src/Utils/Cmdline/Plain.antt =====
-- SplitCmdline on a command without quotes, and on a word with a quote that is not closed.
use mathlib.Core.Option
use cpptool_box.Base.{
  ℕ, zero, suc, ◌+◌, ◌-◌, ◌^◌, ◌<◌, ◌≡◌, refl, sym, subst, ap, ◌∙◌, List, [], ◌∷◌, Bool, true,
  false, Option, none, some, Option-cases, inl, inr, length, drop, length-drop, drop-drop, Result,
  ok, err, ◌>>=◌, map_ok, at, substr, substr_from, sub_size, All, All-drop, ◌==◌, arith,
}
use cpptool_box.Utils.Space.{
  blank, no_blank, is_quote, first, first_from, split_by_space_loop, split_by_space,
}
use cpptool_box.Utils.Space.First.{first-cons_none, first-drop}
use cpptool_box.Utils.Space.Words.{first_from-eq, words, split_by_space-words}
use cpptool_box.Utils.Cmdline.{push, Split, quote_loop, split_cmdline_loop, split_cmdline}

abbrev pub IsPlain : List ℕ → Type 0
IsPlain = All (λ c. is_quote c ≡ false)

first-IsPlain : (s : List ℕ) → IsPlain s → first is_quote s ≡ none
unfolding first
first-IsPlain [] h = refl
first-IsPlain (c ∷ s) h = rw (first, h.0, first-IsPlain s h.1) refl

at-drop : (s : List ℕ) (q c : ℕ) (r : List ℕ) → drop q s ≡ c ∷ r → at s q ≡ ok c
at-drop [] zero c r h = ground (arith, h)
at-drop [] (suc q) c r h = ground (arith, h)
at-drop (x ∷ s) zero c r h = ap (λ l. at l 0) h
at-drop (x ∷ s) (suc q) c r h = at-drop s q c r h

abbrev succeeds : Result (List (List ℕ)) → Result Split
succeeds = map_ok (λ v. (true, v))

push-last : (a : Result (List ℕ)) → push a (ok (true, [])) ≡ succeeds (map_ok (λ x. x ∷ []) a)
push-last (ok a) = refl
push-last (err e) = refl

push-rest :
    (a : Result (List ℕ)) (o : Option (Result (List (List ℕ))))
    → Option.map (push a) (Option.map succeeds o)
      ≡ Option.map succeeds (Option.map (λ rest. a >>= λ x. map_ok (λ v. x ∷ v) rest) o)
push-rest a none = refl
push-rest (ok a) (some (ok v)) = refl
push-rest (ok a) (some (err e)) = refl
push-rest (err f) (some (ok v)) = refl
push-rest (err f) (some (err e)) = refl

-- A word with the blank behind it at `q + j`.
difference : (q j : ℕ) → q + j < 2 ^ 64 → sub_size (q + j) q ≡ q + j - q
difference q j h = omega (arith, h)

module _ (m : ℕ) (s : List ℕ) (plain : IsPlain s) (small : length s < 2 ^ 64) where
  -- A word that begins at `q`, if what follows it is split in the same way.
  word-plain :
      (n p q c : ℕ) (r : List ℕ)
      → first_from no_blank s p ≡ some q
      → drop q s ≡ c ∷ r
      → is_quote c ≡ false
      → ((j : ℕ)
          → split_cmdline_loop (suc m) s n j ≡ Option.map succeeds (split_by_space_loop s n j))
      → split_cmdline_loop (suc m) s (suc n) p
        ≡ Option.map succeeds (split_by_space_loop s (suc n) p)
  unfolding split_cmdline_loop split_by_space_loop quote_loop
  word-plain n p q c r e d b ih = elim (Option-cases (first blank (drop q s))) [
    | inl f ↦
        rw
          (
            split_cmdline_loop,
            split_by_space_loop,
            e,
            at-drop s q c r d,
            b,
            first_from-eq blank s q none f,
            first_from-eq is_quote s q none
                (first-IsPlain (drop q s) (All-drop (λ c. is_quote c ≡ false) q s plain)),
          )
          (ap some (push-last (substr_from s q)))
    | inr (j, f) ↦
        rw
          (
            split_cmdline_loop,
            split_by_space_loop,
            e,
            at-drop s q c r d,
            b,
            first_from-eq blank s q (some j) f,
            first_from-eq is_quote s q none
                (first-IsPlain (drop q s) (All-drop (λ c. is_quote c ≡ false) q s plain)),
          )
          (ap (λ k. Option.map (push (substr s q k)) (split_cmdline_loop (suc m) s n (q + j)))
              (difference q j
                (omega (arith, small, (first-drop blank (drop q s) j f).1.1.1.1, length-drop q s)))
            ∙ (ap (Option.map (push (substr s q (q + j - q)))) (ih (q + j))
                ∙ push-rest (substr s q (q + j - q)) (split_by_space_loop s n (q + j))))
  ]

  loop-plain :
      (n p : ℕ) → split_cmdline_loop (suc m) s n p ≡ Option.map succeeds (split_by_space_loop s n p)
  unfolding split_cmdline_loop split_by_space_loop
  loop-plain zero p = refl
  loop-plain (suc n) p = elim (Option-cases (first no_blank (drop p s))) [
    | inl e ↦ rw (split_cmdline_loop, split_by_space_loop, first_from-eq no_blank s p none e) refl
    | inr (k, e) ↦
        let (c, (r, (d, _))) = first-drop no_blank (drop p s) k e in
        let at_word : drop (p + k) s ≡ c ∷ r = sym (drop-drop k p s) ∙ d in
        word-plain n p (p + k) c r (first_from-eq no_blank s p (some k) e) at_word
          (subst IsPlain at_word (All-drop (λ c. is_quote c ≡ false) (p + k) s plain)).0
          (λ j. loop-plain n j)
  ]

-- A command without quotes is split by SplitCmdline into its words, with the result true.
pub split_cmdline-words :
    (m : ℕ) (cmd : List ℕ)
    → IsPlain cmd
    → length cmd < 2 ^ 64
    → split_cmdline (suc m) cmd ≡ some (ok (true, words [] cmd))
unfolding split_cmdline split_by_space
split_cmdline-words m cmd plain small =
    loop-plain m cmd plain small (suc (length cmd)) 0
    ∙ ap (Option.map succeeds) (split_by_space-words cmd)

first_from-start : (p : ℕ → Bool) (s : List ℕ) → first_from p s 0 ≡ first p s
unfolding first_from
first_from-start p s = same (first p s)
  where
    same : (o : Option ℕ) → Option.map (λ k. 0 + k) o ≡ o
    same none = refl
    same (some k) = ap some (omega arith)

-- The search behind the quote begins at the start again.
quote_loop_lem :
    (cmd : List ℕ) (q c n : ℕ)
    → first blank cmd ≡ none
    → first is_quote cmd ≡ some q
    → at cmd q ≡ ok c
    → first (λ x. x == c) (drop (suc q) cmd) ≡ none
    → quote_loop cmd n none (some q) ≡ none
unfolding quote_loop
quote_loop_lem cmd q c zero h k a f = refl
quote_loop_lem cmd q c (suc n) h k a f =
    rw
      (
        quote_loop,
        a,
        first_from-eq (λ x. x == c) cmd (suc q) none f,
        first_from-start blank cmd,
        first_from-start is_quote cmd,
        h,
        k,
      )
      (quote_loop_lem cmd q c n h k a f)

-- Where a command holds no blank, and a quote behind its first character but no second one like it,
-- SplitCmdline does not end within any number of rounds of the inner loop.
pub split_cmdline_hangs :
    (x : ℕ) (s : List ℕ) (q c : ℕ)
    → first blank (x ∷ s) ≡ none
    → is_quote x ≡ false
    → first is_quote (x ∷ s) ≡ some q
    → at (x ∷ s) q ≡ ok c
    → first (λ y. y == c) (drop (suc q) (x ∷ s)) ≡ none
    → (m : ℕ) → split_cmdline m (x ∷ s) ≡ none
unfolding split_cmdline split_cmdline_loop
split_cmdline_hangs x s q c h b k a f m =
    rw
      (
        split_cmdline_loop,
        first_from-start no_blank (x ∷ s),
        begins,
        b,
        first_from-start blank (x ∷ s),
        first_from-start is_quote (x ∷ s),
        h,
        k,
        quote_loop_lem (x ∷ s) q c m h k a f,
      )
      refl
  where
    begins : first no_blank (x ∷ s) ≡ some 0
    begins = unfold first in rw (first, (first-cons_none blank x s h).0) refl
