-- ===== src/Utils/Convert/Decimal.antt =====
-- Decimal text: it ends, it is short, and it reads back as the number.
use mathlib.Core.List.{reverse-append}
use native.Mathlib.Nat.{pow-suc}
use cpptool_box.Base.{
  ℕ, zero, suc, ◌+◌, ◌-◌, ◌*◌, ◌/◌, ◌%◌, ◌^◌, ◌≤◌, ◌<◌, ◌≡◌, refl, ap, ◌∙◌, List, [], ◌∷◌, ◌++◌,
  reverse, some, if◌then◌else◌, ◌==◌, true, false, Bool-cases, inl, inr, ℤ, pos, negsuc, pos_part,
  neg_part, eq_ℤ, ltb_ℤ, length, length-append, All, All-append, arith,
}
use cpptool_box.Utils.Convert.{negated, quot_10, rem_10, zero_at, convert_digits, convert}

abbrev pub magnitude : ℤ → ℕ
magnitude i = pos_part i + neg_part i

-- The number that digits spell, the least significant first.
abbrev pub spelled : List ℕ → ℕ
spelled [] = 0
spelled (c ∷ p) = c - 48 + 10 * spelled p

-- The number that a text spells.
pub decimal : ℕ → List ℕ → ℕ
decimal acc [] = acc
decimal acc (c ∷ s) = decimal (10 * acc + (c - 48)) s

-- A minus sign in front makes it negative.
pub integer : List ℕ → ℤ
integer [] = pos 0
integer (c ∷ s) = if c == 45 then negated (decimal 0 s) else pos (decimal 0 (c ∷ s))

abbrev pub IsDigit : ℕ → Type 0
IsDigit c = (48 ≤ c) × (c < 58)

zero_at_pos : (d : ℕ) → d < 10 → zero_at (pos d) ≡ 48 + d
unfolding zero_at
zero_at_pos zero h = refl
zero_at_pos (suc zero) h = refl
zero_at_pos (suc (suc zero)) h = refl
zero_at_pos (suc (suc (suc zero))) h = refl
zero_at_pos (suc (suc (suc (suc zero)))) h = refl
zero_at_pos (suc (suc (suc (suc (suc zero))))) h = refl
zero_at_pos (suc (suc (suc (suc (suc (suc zero)))))) h = refl
zero_at_pos (suc (suc (suc (suc (suc (suc (suc zero))))))) h = refl
zero_at_pos (suc (suc (suc (suc (suc (suc (suc (suc zero)))))))) h = refl
zero_at_pos (suc (suc (suc (suc (suc (suc (suc (suc (suc zero))))))))) h = refl
zero_at_pos (suc (suc (suc (suc (suc (suc (suc (suc (suc (suc d)))))))))) h = absurd (omega arith)

zero_at-negated : (d : ℕ) → d < 10 → zero_at (negated d) ≡ 48 + d
unfolding zero_at
zero_at-negated zero h = refl
zero_at-negated (suc zero) h = refl
zero_at-negated (suc (suc zero)) h = refl
zero_at-negated (suc (suc (suc zero))) h = refl
zero_at-negated (suc (suc (suc (suc zero)))) h = refl
zero_at-negated (suc (suc (suc (suc (suc zero))))) h = refl
zero_at-negated (suc (suc (suc (suc (suc (suc zero)))))) h = refl
zero_at-negated (suc (suc (suc (suc (suc (suc (suc zero))))))) h = refl
zero_at-negated (suc (suc (suc (suc (suc (suc (suc (suc zero)))))))) h = refl
zero_at-negated (suc (suc (suc (suc (suc (suc (suc (suc (suc zero))))))))) h = refl
zero_at-negated (suc (suc (suc (suc (suc (suc (suc (suc (suc (suc d)))))))))) h =
    absurd (omega arith)

-- The digit of a round, for either sign.
zero_at-rem : (i : ℤ) → zero_at (rem_10 i) ≡ 48 + magnitude i % 10
zero_at-rem (pos n) = zero_at_pos (n % 10) (omega arith) ∙ omega arith
zero_at-rem (negsuc n) = zero_at-negated (suc n % 10) (omega arith) ∙ omega arith

magnitude-negated : (n : ℕ) → magnitude (negated n) ≡ n
magnitude-negated zero = omega arith
magnitude-negated (suc n) = omega arith

magnitude-quot : (i : ℤ) → magnitude (quot_10 i) ≡ magnitude i / 10
magnitude-quot (pos n) = omega arith
magnitude-quot (negsuc n) = magnitude-negated (suc n / 10) ∙ omega arith

-- The loop ends within its rounds; its digits spell the magnitude.
record Spells (i : ℤ) (p : List ℕ) : Type 0 where
  pub number : spelled p ≡ magnitude i
  pub all_digits : All IsDigit p
  pub some_digit : 0 < length p
  pub short : (k : ℕ) → magnitude i < 10 ^ suc k → length p ≤ suc k

zero_magnitude : (i : ℤ) → eq_ℤ i (pos 0) ≡ true → magnitude i ≡ 0
zero_magnitude i h = ground (arith, h)

Spells-last : (i : ℤ) → magnitude i < 10 → Spells i (zero_at (rem_10 i) ∷ [])
Spells-last i h = record {
  number = omega (arith, zero_at-rem i);
  all_digits = (omega (arith, zero_at-rem i), tt);
  some_digit = omega arith;
  short = λ k l. omega arith;
}

shorter :
    (m k n : ℕ)
    → 10 ≤ m
    → ((j : ℕ) → m / 10 < 10 ^ suc j → n ≤ suc j)
    → m < 10 ^ suc k
    → suc n ≤ suc k
shorter m zero n b f l = absurd (omega arith)
shorter m (suc k) n b f l = omega (arith, f k (less (10 ^ suc k) (rw (← pow-suc 10 (suc k)) l)))
  where
    less : (q : ℕ) → m < q * 10 → m / 10 < q
    less q h = omega arith

Spells-cons :
    (i : ℤ) (p : List ℕ)
    → 10 ≤ magnitude i
    → Spells (quot_10 i) p
    → Spells i (zero_at (rem_10 i) ∷ p)
Spells-cons i p b s = record {
  number = omega (arith, zero_at-rem i, magnitude-quot i, s.number);
  all_digits = (omega (arith, zero_at-rem i), s.all_digits);
  some_digit = omega arith;
  short =
      λ k l. shorter (magnitude i) k (length p) b (λ j q. s.short j (rw (magnitude-quot i) q)) l;
}

zero_quot : (i : ℤ) → eq_ℤ (quot_10 i) (pos 0) ≡ true → magnitude i < 10
zero_quot i h = omega (arith, magnitude-quot i, zero_magnitude (quot_10 i) h)

nonzero_magnitude : (i : ℤ) → eq_ℤ i (pos 0) ≡ false → 0 < magnitude i
nonzero_magnitude i h = ground (arith, h)

nonzero_quot : (i : ℤ) → eq_ℤ (quot_10 i) (pos 0) ≡ false → 10 ≤ magnitude i
nonzero_quot i h = omega (arith, magnitude-quot i, nonzero_magnitude (quot_10 i) h)

convert_digits-Spells :
    (n : ℕ) (i : ℤ) → magnitude i < n → (p : List ℕ) × ((convert_digits n i ≡ some p) × Spells i p)
unfolding convert_digits
convert_digits-Spells zero i h = absurd (omega arith)
convert_digits-Spells (suc n) i h = elim (Bool-cases (eq_ℤ (quot_10 i) (pos 0))) [
  | inl e ↦ (zero_at (rem_10 i) ∷ [], (rw (convert_digits, e) refl, Spells-last i (zero_quot i e)))
  | inr e ↦
      let (p, (r, s)) =
        convert_digits-Spells n (quot_10 i) (omega (arith, magnitude-quot i, nonzero_quot i e)) in
      (
        zero_at (rem_10 i) ∷ p,
        (rw (convert_digits, e, r) refl, Spells-cons i p (nonzero_quot i e) s),
      )
]

decimal-append : (acc : ℕ) (s t : List ℕ) → decimal acc (s ++ t) ≡ decimal (decimal acc s) t
unfolding decimal
decimal-append acc [] t = refl
decimal-append acc (c ∷ s) t = decimal-append (10 * acc + (c - 48)) s t

decimal-reverse : (p : List ℕ) → decimal 0 (reverse p) ≡ spelled p
unfolding decimal
decimal-reverse [] = refl
decimal-reverse (c ∷ p) =
    ap (decimal 0) (reverse-append (c ∷ []) p)
    ∙ (decimal-append 0 (reverse p) (c ∷ []) ∙ omega (arith, decimal-reverse p))

All-reverse : (p : List ℕ) → All IsDigit p → All IsDigit (reverse p)
All-reverse [] h = tt
All-reverse (c ∷ p) h =
    rw (reverse-append (c ∷ []) p)
      (All-append IsDigit (reverse p) (c ∷ []) (All-reverse p h.1) (h.0, tt))

pub length-reverse : (p : List ℕ) → length (reverse p) ≡ length p
length-reverse [] = refl
length-reverse (c ∷ p) =
    ap length (reverse-append (c ∷ []) p)
    ∙ omega (arith, length-append (reverse p) (c ∷ []), length-reverse p)

integer-digits : (s : List ℕ) → All IsDigit s → integer s ≡ pos (decimal 0 s)
unfolding integer decimal
integer-digits [] h = refl
integer-digits (c ∷ s) h = ground (arith, h.0)

pos_sign : (n : ℕ) → ltb_ℤ (pos n) (pos 0) ≡ false
pos_sign n = ground arith

neg_sign : (n : ℕ) → ltb_ℤ (negsuc n) (pos 0) ≡ true
neg_sign n = ground arith

-- The text of a value with these digits.
abbrev signed_text : ℤ → List ℕ → List ℕ
signed_text (pos n) p = reverse p
signed_text (negsuc n) p = 45 ∷ reverse p

convert-Spells :
    (value : ℤ) → (p : List ℕ) × ((convert value ≡ some (signed_text value p)) × Spells value p)
unfolding convert
convert-Spells (pos n) =
    let (p, (r, s)) = convert_digits-Spells (suc (n + 0)) (pos n) (omega arith) in
    (p, (rw (r) (ap (λ b. some (reverse (if b then p ++ (45 ∷ []) else p))) (pos_sign n)), s))
convert-Spells (negsuc n) =
    let (p, (r, s)) = convert_digits-Spells (suc (0 + suc n)) (negsuc n) (omega arith) in
    (
      p,
      (
        rw (r) (
            ap (λ b. some (reverse (if b then p ++ (45 ∷ []) else p))) (neg_sign n)
            ∙ ap some (reverse-append p (45 ∷ []))),
        s,
      ),
    )

integer-signed_text :
    (value : ℤ) (p : List ℕ) → Spells value p → integer (signed_text value p) ≡ value
unfolding integer
integer-signed_text (pos n) p s =
    integer-digits (reverse p) (All-reverse p s.all_digits)
    ∙ ap pos (decimal-reverse p ∙ (s.number ∙ omega arith))
integer-signed_text (negsuc n) p s =
    ap negated {y = suc n} (decimal-reverse p ∙ (s.number ∙ omega arith))

length-signed_text : (value : ℤ) (p : List ℕ) → length (signed_text value p) ≤ suc (length p)
length-signed_text (pos n) p = omega (arith, length-reverse p)
length-signed_text (negsuc n) p = omega (arith, length-reverse p)

-- Every integer has a text: the loop ends. It reads back as the number, and a number of at most k
-- digits takes at most k characters and the sign.
pub convert-integer :
    (value : ℤ)
    → (s : List ℕ) × ((convert value ≡ some s)
        × ((integer s ≡ value) × ((k : ℕ) → magnitude value < 10 ^ suc k → length s ≤ suc (suc k))))
convert-integer value =
    let (p, (r, s)) = convert-Spells value in
    (
      signed_text value p,
      (
        r,
        (
          integer-signed_text value p s,
          λ k l. omega (arith, length-signed_text value p, s.short k l),
        ),
      ),
    )

digits-NoZero : (s : List ℕ) → All IsDigit s → All (λ c. 0 < c) s
digits-NoZero [] h = tt
digits-NoZero (c ∷ s) h = (omega (arith, h.0.0), digits-NoZero s h.1)

-- The text has no zero byte.
pub convert-NoZero : (value : ℤ) → (s : List ℕ) × ((convert value ≡ some s) × All (λ c. 0 < c) s)
convert-NoZero value =
    let (p, (r, s)) = convert-Spells value in
    (
      signed_text value p,
      (r, signed_text-NoZero value p (digits-NoZero (reverse p) (All-reverse p s.all_digits))),
    )
  where
    signed_text-NoZero :
        (value : ℤ) (p : List ℕ)
        → All (λ c. 0 < c) (reverse p)
        → All (λ c. 0 < c) (signed_text value p)
    signed_text-NoZero (pos n) p h = h
    signed_text-NoZero (negsuc n) p h = (omega arith, h)
