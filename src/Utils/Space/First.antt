-- ===== src/Utils/Space/First.antt =====
-- The first and the last character that a test accepts.
use cpptool_box.Base.{
  ℕ, suc, ◌<◌, ◌≡◌, ◌⊎◌, refl, sym, ◌∙◌, List, [], ◌∷◌, Bool, true, false, none, some,
  some-injective, Bool-cases, Option-cases, inl, inr, length, drop, arith,
}
use cpptool_box.Utils.Space.{first}

module _ (p : ℕ → Bool) where
  -- The first character that is accepted is at the front or behind it.
  pub first-cons :
      (c : ℕ) (s : List ℕ) (k : ℕ)
      → first p (c ∷ s) ≡ some k
      → ((p c ≡ true) × (0 ≡ k))
        ⊎ ((p c ≡ false) × ((j : ℕ) × ((first p s ≡ some j) × (suc j ≡ k))))
  unfolding first
  first-cons c s k h = elim (Bool-cases (p c)) [
    | inl e ↦ inl (e, some-injective (sym (rw (e) refl) ∙ h))
    | inr e ↦ elim (Option-cases (first p s)) [
      | inl n ↦ absurd (ground (arith, h, e, n))
      | inr (j, f) ↦ inr (e, (j, (f, ground (arith, h, e, f))))
    ]
  ]

  pub first-cons_none :
      (c : ℕ) (s : List ℕ) → first p (c ∷ s) ≡ none → (p c ≡ false) × (first p s ≡ none)
  unfolding first
  first-cons_none c s h = elim (Bool-cases (p c)) [
    | inl e ↦ absurd (ground (arith, h, e))
    | inr e ↦ (e, ground (arith, h, e))
  ]

  -- What stands there.
  pub first-drop :
      (s : List ℕ) (k : ℕ)
      → first p s ≡ some k
      → (c : ℕ) × ((r : List ℕ) × ((drop k s ≡ c ∷ r) × ((p c ≡ true) × (k < length s))))
  first-drop [] k h = absurd (ground (arith, h, empty))
    where
      empty : first p [] ≡ none
      empty = unfold first in refl
  first-drop (c ∷ s) k h = elim (first-cons c s k h) [
    | inl (e, z) ↦ rw (← z) (c, (s, (refl, (e, omega arith))))
    | inr (e, (j, (f, z))) ↦
        let (d, (r, (g, (q, l)))) = first-drop s j f in rw (← z) (d, (r, (g, (q, omega arith))))
  ]
