-- ===== src/Files/Ensure.antt =====
-- ensureDirectory makes the directories on the way before the one that it is asked for.
use mathlib.Core.List.{append_assoc, append-nil}
use cpptool_box.Base.{
  ℕ, ◌<◌, ◌≡◌, refl, sym, ap, subst, List, [], ◌∷◌, ◌++◌, true, false, Option, none, some,
  Bool-cases, Option-cases, ◌⊎◌, if◌then◌else◌, inl, inr, ◌==◌, ==_iff, length, take,
  take-append_left, take-append, All, All-append, c_str-eq, arith,
}
use cpptool_box.Files.{slash, rfind, Made, done, exists, is_made, ensure_loop, ensure_directory}
use cpptool_box.Files.Names.{rfind-append}

-- What stands in front of the last slash; for a path without one, the current directory.
abbrev pub cut : List ℕ → Option ℕ → List ℕ
cut p none = []
cut p (some k) = take k p

abbrev pub parent : List ℕ → List ℕ
parent p = cut p (rfind slash p)

abbrev pub NoZero : List ℕ → Type 0
NoZero = All (λ c. 0 < c)

parent-slash : (p : List ℕ) → parent (p ++ (slash ∷ [])) ≡ p
parent-slash p = rw (rfind-append slash p [] tt) (take-append_left (length p) p (slash ∷ []) refl)

rfind-other :
    (p : List ℕ) (c : ℕ) → (c == slash) ≡ false → rfind slash (p ++ (c ∷ [])) ≡ rfind slash p
unfolding rfind
rfind-other [] c h = rw (h) refl
rfind-other (x ∷ p) c h = rw (rfind, rfind-other p c h) refl

rfind-lt : (c : ℕ) (s : List ℕ) (k : ℕ) → rfind c s ≡ some k → k < length s
unfolding rfind
rfind-lt c [] k h = ground (arith, h)
rfind-lt c (x ∷ s) k h = elim (Option-cases (rfind c s)) [
  | inl n ↦ ground (arith, h, n)
  | inr (j, e) ↦ ground (arith, h, e, rfind-lt c s j e)
]

parent-other : (p : List ℕ) (c : ℕ) → (c == slash) ≡ false → parent (p ++ (c ∷ [])) ≡ parent p
parent-other p c h = elim (Option-cases (rfind slash p)) [
  | inl n ↦ rw (rfind-other p c h, n) refl
  | inr (k, e) ↦
      rw (rfind-other p c h, e) (take-append k p (c ∷ []) (omega (arith, rfind-lt slash p k e)))
]

-- The parts of a path that end in front of a slash, but for the first byte.
unfoldable pub ancestors : List ℕ → List ℕ → List (List ℕ)
ancestors front [] = []
ancestors front (c ∷ rest) =
    let next = ancestors (front ++ (c ∷ [])) rest in if c == slash then front ∷ next else next

module _ {Fs : Type 0} (mkdir : Fs → List ℕ → Made × Fs) (is_dir : Fs → List ℕ → Type 0) where
  -- What mkdir says and does for a path whose parent is a directory, and that it removes nothing.
  pub record IsWritable : Type 0 where
    pub answers :
        (fs : Fs) (c : ℕ) (p : List ℕ)
        → is_dir fs (parent (c ∷ p))
        → ((mkdir fs (c ∷ p)).0 ≡ done) ⊎ ((mkdir fs (c ∷ p)).0 ≡ exists)
    pub makes :
        (fs : Fs) (c : ℕ) (p : List ℕ)
        → is_dir fs (parent (c ∷ p))
        → is_dir (mkdir fs (c ∷ p)).1 (c ∷ p)
    pub keeps : (fs : Fs) (p q : List ℕ) → is_dir fs q → is_dir (mkdir fs p).1 q

  accepts :
      (w : IsWritable) (fs : Fs) (c : ℕ) (p : List ℕ)
      → is_dir fs (parent (c ∷ p))
      → is_made mkdir (mkdir fs (c ∷ p)).0 ≡ true
  accepts w fs c p h = elim (w.answers fs c p h) [ inl e ↦ rw (e) refl | inr e ↦ rw (e) refl ]

  -- With the parent of what stands in front of the loop there, it makes the rest, and what was a
  -- directory stays one.
  ensure_loop-makes :
      (w : IsWritable) (fs : Fs) (a : ℕ) (path rest : List ℕ)
      → NoZero (a ∷ path)
      → NoZero rest
      → is_dir fs (parent (a ∷ path))
      → (fs' : Fs) × ((ensure_loop mkdir fs (a ∷ path) rest ≡ (true, fs'))
          × (is_dir fs' ((a ∷ path) ++ rest)
              × (All (is_dir fs') (ancestors (a ∷ path) rest)
                  × ((q : List ℕ) → is_dir fs q → is_dir fs' q))))
  unfolding ensure_loop ancestors
  ensure_loop-makes w fs a path [] z y h = (
    (mkdir fs (a ∷ path)).1,
    (
      rw (c_str-eq (a ∷ path) z) (ap (λ b. (b, (mkdir fs (a ∷ path)).1)) (accepts w fs a path h)),
      (
        subst (is_dir (mkdir fs (a ∷ path)).1) (sym (append-nil (a ∷ path))) (w.makes fs a path h),
        (tt, λ q d. w.keeps fs (a ∷ path) q d),
      ),
    ),
  )
  ensure_loop-makes w fs a path (c ∷ rest) z y h = elim (Bool-cases (c == slash)) [
    | inl e ↦
        let (fs', (r, (d, (u, k)))) =
          ensure_loop-makes w (mkdir fs (a ∷ path)).1 a (path ++ (c ∷ [])) rest
            (All-append (λ c. 0 < c) (a ∷ path) (c ∷ []) z (y.0, tt)) y.1
            (subst (is_dir (mkdir fs (a ∷ path)).1) (sym (at_slash e)) (w.makes fs a path h)) in
        (
          fs',
          (
            rw (e, c_str-eq (a ∷ path) z, accepts w fs a path h) r,
            (
              subst (is_dir fs') (append_assoc (a ∷ path) (c ∷ []) rest) d,
              (
                rw (e) (k (a ∷ path) (w.makes fs a path h), u),
                λ q x. k q (w.keeps fs (a ∷ path) q x),
              ),
            ),
          ),
        )
    | inr e ↦
        let (fs', (r, (d, (u, k)))) =
          ensure_loop-makes w fs a (path ++ (c ∷ [])) rest
            (All-append (λ c. 0 < c) (a ∷ path) (c ∷ []) z (y.0, tt)) y.1
            (subst (is_dir fs) (sym (parent-other (a ∷ path) c e)) h) in
        (
          fs',
          (rw (e) r, (subst (is_dir fs') (append_assoc (a ∷ path) (c ∷ []) rest) d, (rw (e) u, k))),
        )
  ]
    where
      at_slash : (c == slash) ≡ true → parent ((a ∷ path) ++ (c ∷ [])) ≡ a ∷ path
      at_slash e = rw ((==_iff c slash).0 e) (parent-slash (a ∷ path))

  -- Where mkdir of a path whose parent is a directory answers that it is done or that the path exists
  -- (EEXIST), and leaves a directory there and no directory less, ensureDirectory of a path that is not
  -- empty and has no zero byte, with the directory that it starts from there, returns true: the path is
  -- then a directory, and so is every part of it that ends in front of a slash behind the first byte.
  pub ensure_directory-makes :
      (w : IsWritable) (fs : Fs) (a : ℕ) (path : List ℕ)
      → NoZero (a ∷ path)
      → is_dir fs []
      → (fs' : Fs) × ((ensure_directory mkdir fs (a ∷ path) ≡ (true, fs'))
          × (is_dir fs' (a ∷ path) × All (is_dir fs') (ancestors (a ∷ []) path)))
  unfolding ensure_directory rfind
  ensure_directory-makes w fs a path z h =
      let (fs', (r, (d, (u, _)))) =
        ensure_loop-makes w fs a [] path (z.0, tt) z.1 (subst (is_dir fs) (sym first) h) in
      (fs', (r, (d, u)))
    where
      first : parent (a ∷ []) ≡ []
      first = elim (Bool-cases (a == slash)) [ inl e ↦ rw (e) refl | inr e ↦ rw (e) refl ]
