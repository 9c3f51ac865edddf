-- ===== src/Base/Counts.antt =====
-- Sums over a list, and how often an element stands in it.
use Prim.Native.Nat.{ℕ, zero, suc, ◌+◌, ◌≤◌, ◌<◌}
use mathlib.Core.Path.{◌≡◌, refl}
use mathlib.Core.List.{List, [], ◌∷◌, ◌++◌, map}
use mathlib.Core.Option.{some}
use native.Mathlib.Omega.{arith}
use cpptool_box.Base.Tests.{◌==◌, if◌then◌else◌}
use cpptool_box.Base.Lists.{get_elem?, set, replicate}
use native.Mathlib.Decide.{dec_lt}

module _ {ℓ} {A : Type ℓ} (w : A → ℕ) where
  abbrev pub total : List A → ℕ
  total [] = 0
  total (x ∷ xs) = w x + total xs

  pub total-append : (xs ys : List A) → total (xs ++ ys) ≡ total xs + total ys
  total-append [] ys = omega arith
  total-append (x ∷ xs) ys = omega (arith, total-append xs ys)

  pub total-set :
      (xs : List A) (i : ℕ) (x y : A)
      → get_elem? xs i ≡ some x
      → total (set xs i y) + w x ≡ total xs + w y
  total-set [] i x y h = ground (arith, h)
  total-set (z ∷ xs) zero x y h = ground (arith, h)
  total-set (z ∷ xs) (suc i) x y h = omega (arith, total-set xs i x y h)

  pub total-le : (xs : List A) (i : ℕ) (x : A) → get_elem? xs i ≡ some x → w x ≤ total xs
  total-le [] i x h = ground (arith, h)
  total-le (z ∷ xs) zero x h = ground (arith, h)
  total-le (z ∷ xs) (suc i) x h = omega (arith, total-le xs i x h)

  pub total-map :
      (f : A → A) → ((x : A) → w (f x) ≡ w x) → (xs : List A) → total (map f xs) ≡ total xs
  total-map f h [] = refl
  total-map f h (x ∷ xs) = omega (arith, h x, total-map f h xs)

  pub total-replicate : (n : ℕ) (x : A) → w x ≡ 0 → total (replicate n x) ≡ 0
  total-replicate zero x h = refl
  total-replicate (suc n) x h = omega (arith, h, total-replicate n x h)

  -- A sum that is not zero has an element that counts.
  pub total-some :
      (xs : List A) → 0 < total xs → (i : ℕ) × ((x : A) × ((get_elem? xs i ≡ some x) × (0 < w x)))
  total-some [] h = absurd (omega arith)
  total-some (x ∷ xs) h = elim (dec_lt 0 (w x)) [
    | yes p ↦ (0, (x, (refl, p)))
    | no n ↦ let (i, (y, (g, p))) = total-some xs (omega arith) in (suc i, (y, (g, p)))
  ]

abbrev pub same : ℕ → ℕ → ℕ
same a x = if x == a then 1 else 0

-- How many elements are `a`.
abbrev pub count : ℕ → List ℕ → ℕ
count a = total (same a)

pub count-append : (a : ℕ) (xs ys : List ℕ) → count a (xs ++ ys) ≡ count a xs + count a ys
count-append a = total-append (same a)
