-- ===== src/Files/Names.antt =====
-- The name of a file behind its directory.
use mathlib.Core.List.{append_assoc}
use cpptool_box.Base.{
  ℕ, ◌-◌, ◌≡◌, refl, sym, ap, subst, ◌∙◌, List, [], ◌∷◌, ◌++◌, true, false, none, some, Bool-cases,
  inl, inr, ◌==◌, length, take, drop, length-append, drop-append_right, take-append_left, ok, All,
  arith, le→ltb,
}
use cpptool_box.Files.{
  slash, dot, rfind, is_empty, front_is, back_is, get_absolute_path, name_start, get_file_name,
}

-- A text without a character.
abbrev pub Lacks : ℕ → List ℕ → Type 0
Lacks c = All (λ x. (x == c) ≡ false)

pub rfind-Lacks : (c : ℕ) (s : List ℕ) → Lacks c s → rfind c s ≡ none
unfolding rfind
rfind-Lacks c [] h = refl
rfind-Lacks c (x ∷ s) h = rw (rfind, rfind-Lacks c s h.1) (rw (h.0) refl)

pub rfind-append : (c : ℕ) (s t : List ℕ) → Lacks c t → rfind c (s ++ (c ∷ t)) ≡ some (length s)
unfolding rfind
rfind-append c [] t h = rw (rfind, rfind-Lacks c t h) (ground arith)
rfind-append c (x ∷ s) t h = rw (rfind, rfind-append c s t h) refl

-- A path that is a directory with its last slash, and a name with its last dot.
module _ (d b e : List ℕ) (start : name_start (rfind slash (d ++ (b ++ (dot ∷ e)))) ≡ length d)
    (extension : Lacks dot e) where
  whole : List ℕ
  whole = d ++ (b ++ (dot ∷ e))

  name_lem : get_file_name (d ++ (b ++ (dot ∷ e))) false ≡ ok (b ++ (dot ∷ e))
  unfolding get_file_name
  name_lem = rw (start) (
      rw
        (le→ltb (length (d ++ (b ++ (dot ∷ e)))) (length d)
          (omega (arith, length-append d (b ++ (dot ∷ e)))))
        (ap ok (drop-append_right (length d) d (b ++ (dot ∷ e)) refl)))

  last_dot : rfind dot (d ++ (b ++ (dot ∷ e))) ≡ some (length (d ++ b))
  last_dot =
      ap (rfind dot) (sym (append_assoc d b (dot ∷ e))) ∙ rfind-append dot (d ++ b) e extension

  stem : take (length (d ++ b) - length d) (drop (length d) (d ++ (b ++ (dot ∷ e)))) ≡ b
  stem =
      ap (take (length (d ++ b) - length d)) (drop-append_right (length d) d (b ++ (dot ∷ e)) refl)
      ∙ take-append_left (length (d ++ b) - length d) b (dot ∷ e) (omega (arith, length-append d b))

  stem_lem : get_file_name (d ++ (b ++ (dot ∷ e))) true ≡ ok b
  unfolding get_file_name
  stem_lem =
      rw (start, last_dot)
        (rw (le→ltb (length (d ++ b)) (length d) (omega (arith, length-append d b))) (
          rw
            (le→ltb (length (d ++ (b ++ (dot ∷ e)))) (length d)
              (omega (arith, length-append d (b ++ (dot ∷ e)))))
            (ap ok stem)))

back_slash : (s : List ℕ) → back_is slash s ≡ true → (q : List ℕ) × (s ≡ q ++ (slash ∷ []))
back_slash [] h = ground (arith, h)
back_slash (x ∷ []) h = ([], ground (arith, h))
back_slash (x ∷ y ∷ s) h = let (q, e) = back_slash (y ∷ s) h in (x ∷ q, ap (λ t. x ∷ t) e)

start_behind :
    (q n : List ℕ)
    → Lacks slash n
    → name_start (rfind slash ((q ++ (slash ∷ [])) ++ n)) ≡ length (q ++ (slash ∷ []))
start_behind q n h =
    ap (λ s. name_start (rfind slash s)) (append_assoc q (slash ∷ []) n)
    ∙ (ap name_start (rfind-append slash q n h) ∙ omega (arith, length-append q (slash ∷ [])))

not_empty : (b e : List ℕ) → is_empty (b ++ (dot ∷ e)) ≡ false
not_empty [] e = refl
not_empty (x ∷ b) e = refl

not_rooted : (n : List ℕ) → Lacks slash n → front_is slash n ≡ false
not_rooted [] h = refl
not_rooted (x ∷ n) h = h.0

-- The three ways to put a name behind a prefix: the directory of the result ends in a slash, or is
-- empty.
absolute_cases :
    (prefix b e : List ℕ)
    → Lacks slash (b ++ (dot ∷ e))
    → (d : List ℕ) × ((get_absolute_path prefix (b ++ (dot ∷ e)) ≡ d ++ (b ++ (dot ∷ e)))
        × (name_start (rfind slash (d ++ (b ++ (dot ∷ e)))) ≡ length d))
unfolding get_absolute_path
absolute_cases [] b e h =
    ([], (rw (not_empty b e) refl, ap name_start (rfind-Lacks slash (b ++ (dot ∷ e)) h)))
absolute_cases (x ∷ prefix) b e h = elim (Bool-cases (back_is slash (x ∷ prefix))) [
  | inl k ↦
      let (q, r) = back_slash (x ∷ prefix) k in
      (
        x ∷ prefix,
        (
          rw (not_empty b e, not_rooted (b ++ (dot ∷ e)) h, k) refl,
          subst (λ p. name_start (rfind slash (p ++ (b ++ (dot ∷ e)))) ≡ length p) (sym r)
              (start_behind q (b ++ (dot ∷ e)) h),
        ),
      )
  | inr k ↦ (
    (x ∷ prefix) ++ (slash ∷ []),
    (
      rw (not_empty b e, not_rooted (b ++ (dot ∷ e)) h, k)
          (sym (append_assoc (x ∷ prefix) (slash ∷ []) (b ++ (dot ∷ e)))),
      start_behind (x ∷ prefix) (b ++ (dot ∷ e)) h,
    ),
  )
]

-- A name with an extension and no slash, put behind any prefix by getAbsolutePath, is read back by
-- getFileName, and without the extension where it is to be removed.
pub get_file_name-get_absolute_path :
    (prefix b e : List ℕ)
    → Lacks slash (b ++ (dot ∷ e))
    → Lacks dot e
    → (get_file_name (get_absolute_path prefix (b ++ (dot ∷ e))) false ≡ ok (b ++ (dot ∷ e)))
      × (get_file_name (get_absolute_path prefix (b ++ (dot ∷ e))) true ≡ ok b)
get_file_name-get_absolute_path prefix b e h k =
    let (d, (p, s)) = absolute_cases prefix b e h in rw (p) (name_lem d b e s k, stem_lem d b e s k)
