-- ===== src/Utils/Convert/Hex.antt =====
-- Hexadecimal text: it ends, it is short, and it reads back as the number.
use mathlib.Core.List.{reverse-append}
use native.Mathlib.Nat.{pow-suc}
use cpptool_box.Base.{
  All, All-append, ℕ, zero, suc, ◌+◌, ◌-◌, ◌*◌, ◌/◌, ◌%◌, ◌^◌, ◌≤◌, ◌<◌, ◌≡◌, refl, ap, ◌∙◌, List,
  [], ◌∷◌, ◌++◌, reverse, some, if◌then◌else◌, ◌==◌, ltb, Bool-cases, inl, inr, get_or, length,
  arith,
}
use cpptool_box.Utils.Convert.{digits_hex, hex_digits, convert_hex}
use cpptool_box.Utils.Convert.Decimal.{length-reverse}

-- What a digit stands for.
abbrev pub digit_value : ℕ → ℕ
digit_value c = if ltb c 65 then c - 48 else c - 55

-- The number that a text spells.
pub hexadecimal : ℕ → List ℕ → ℕ
hexadecimal acc [] = acc
hexadecimal acc (c ∷ s) = hexadecimal (16 * acc + digit_value c) s

abbrev spelled : List ℕ → ℕ
spelled [] = 0
spelled (c ∷ p) = digit_value c + 16 * spelled p

digit_value-digits_hex :
    (d : ℕ) → d < 16 → (digit_value (get_or digits_hex d 0) ≡ d) × (0 < get_or digits_hex d 0)
digit_value-digits_hex zero h = (refl, omega arith)
digit_value-digits_hex (suc zero) h = (refl, omega arith)
digit_value-digits_hex (suc (suc zero)) h = (refl, omega arith)
digit_value-digits_hex (suc (suc (suc zero))) h = (refl, omega arith)
digit_value-digits_hex (suc (suc (suc (suc zero)))) h = (refl, omega arith)
digit_value-digits_hex (suc (suc (suc (suc (suc zero))))) h = (refl, omega arith)
digit_value-digits_hex (suc (suc (suc (suc (suc (suc zero)))))) h = (refl, omega arith)
digit_value-digits_hex (suc (suc (suc (suc (suc (suc (suc zero))))))) h = (refl, omega arith)
digit_value-digits_hex (suc (suc (suc (suc (suc (suc (suc (suc zero)))))))) h = (refl, omega arith)
digit_value-digits_hex (suc (suc (suc (suc (suc (suc (suc (suc (suc zero))))))))) h =
    (refl, omega arith)
digit_value-digits_hex (suc (suc (suc (suc (suc (suc (suc (suc (suc (suc zero)))))))))) h =
    (refl, omega arith)
digit_value-digits_hex (suc (suc (suc (suc (suc (suc (suc (suc (suc (suc (suc zero))))))))))) h =
    (refl, omega arith)
digit_value-digits_hex (suc (suc (suc (suc (suc (suc (suc (suc (suc (suc (suc (suc zero))))))))))))
      h =
    (refl, omega arith)
digit_value-digits_hex
      (suc (suc (suc (suc (suc (suc (suc (suc (suc (suc (suc (suc (suc zero))))))))))))) h =
    (refl, omega arith)
digit_value-digits_hex
      (suc (suc (suc (suc (suc (suc (suc (suc (suc (suc (suc (suc (suc (suc zero)))))))))))))) h =
    (refl, omega arith)
digit_value-digits_hex
      (suc (suc (suc (suc (suc (suc (suc (suc (suc (suc (suc (suc (suc (suc (suc zero)))))))))))))))
      h =
    (refl, omega arith)
digit_value-digits_hex
      (suc
        (suc (suc (suc (suc (suc (suc (suc (suc (suc (suc (suc (suc (suc (suc (suc d))))))))))))))))
      h =
    absurd (omega arith)

record Spells (i : ℕ) (p : List ℕ) : Type 0 where
  pub number : spelled p ≡ i
  pub printed : All (λ c. 0 < c) p
  pub short : (k : ℕ) → i < 16 ^ suc k → length p ≤ suc k

shorter :
    (m k n : ℕ)
    → 16 ≤ m
    → ((j : ℕ) → m / 16 < 16 ^ suc j → n ≤ suc j)
    → m < 16 ^ suc k
    → suc n ≤ suc k
shorter m zero n b f l = absurd (omega arith)
shorter m (suc k) n b f l = omega (arith, f k (less (16 ^ suc k) (rw (← pow-suc 16 (suc k)) l)))
  where
    less : (q : ℕ) → m < q * 16 → m / 16 < q
    less q h = omega arith

hex_digits-Spells : (n i : ℕ) → i < n → (p : List ℕ) × ((hex_digits n i ≡ some p) × Spells i p)
unfolding hex_digits
hex_digits-Spells zero i h = absurd (omega arith)
hex_digits-Spells (suc n) i h = elim (Bool-cases (i / 16 == 0)) [
  | inl e ↦ (
    get_or digits_hex (i % 16) 0 ∷ [],
    (
      rw (hex_digits, e) refl,
      record {
        number = ground (arith, e, (digit_value-digits_hex (i % 16) (omega arith)).0);
        printed = ((digit_value-digits_hex (i % 16) (omega arith)).1, tt);
        short = λ k l. omega arith;
      },
    ),
  )
  | inr e ↦
      let (p, (r, s)) = hex_digits-Spells n (i / 16) (ground (arith, e)) in
      (
        get_or digits_hex (i % 16) 0 ∷ p,
        (
          rw (hex_digits, e, r) refl,
          record {
            number = omega (arith, (digit_value-digits_hex (i % 16) (omega arith)).0, s.number);
            printed = ((digit_value-digits_hex (i % 16) (omega arith)).1, s.printed);
            short = λ k l. shorter i k (length p) (ground (arith, e)) s.short l;
          },
        ),
      )
]

hexadecimal-append :
    (acc : ℕ) (s t : List ℕ) → hexadecimal acc (s ++ t) ≡ hexadecimal (hexadecimal acc s) t
unfolding hexadecimal
hexadecimal-append acc [] t = refl
hexadecimal-append acc (c ∷ s) t = hexadecimal-append (16 * acc + digit_value c) s t

hexadecimal-reverse : (p : List ℕ) → hexadecimal 0 (reverse p) ≡ spelled p
unfolding hexadecimal
hexadecimal-reverse [] = refl
hexadecimal-reverse (c ∷ p) =
    ap (hexadecimal 0) (reverse-append (c ∷ []) p)
    ∙ (hexadecimal-append 0 (reverse p) (c ∷ []) ∙ omega (arith, hexadecimal-reverse p))

-- Every address has a text: the loop ends. It reads back as the number, and a number of at most k
-- digits takes at most k characters.
pub convert_hex-hexadecimal :
    (value : ℕ)
    → (s : List ℕ) × ((convert_hex value ≡ some s)
        × ((hexadecimal 0 s ≡ value) × ((k : ℕ) → value < 16 ^ suc k → length s ≤ suc k)))
unfolding convert_hex
convert_hex-hexadecimal value =
    let (p, (r, s)) = hex_digits-Spells (suc value) value (omega arith) in
    (
      reverse p,
      (
        rw (r) refl,
        (hexadecimal-reverse p ∙ s.number, λ k l. omega (arith, length-reverse p, s.short k l)),
      ),
    )

All-reverse : (p : List ℕ) → All (λ c. 0 < c) p → All (λ c. 0 < c) (reverse p)
All-reverse [] h = tt
All-reverse (c ∷ p) h =
    rw (reverse-append (c ∷ []) p)
      (All-append (λ c. 0 < c) (reverse p) (c ∷ []) (All-reverse p h.1) (h.0, tt))

-- The text has no zero byte.
pub convert_hex-NoZero :
    (value : ℕ) → (s : List ℕ) × ((convert_hex value ≡ some s) × All (λ c. 0 < c) s)
unfolding convert_hex
convert_hex-NoZero value =
    let (p, (r, s)) = hex_digits-Spells (suc value) value (omega arith) in
    (reverse p, (rw (r) refl, All-reverse p s.printed))
