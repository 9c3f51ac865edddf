-- ===== src/CLog/Names.antt =====
-- The two routines of gwcpp/base that cut the name of a file from its path.
use cpptool_box.Base.{
  ℕ, suc, ◌<◌, ◌≤◌, ◌≡◌, refl, ap, ◌∙◌, List, [], ◌∷◌, false, Option, none, some, if◌then◌else◌,
  ◌==◌, length, drop, ok, All, arith, le→ltb,
}
use cpptool_box.Files.{slash, rfind, name_start, get_file_name}
use cpptool_box.CLog.{base_loop, base_file_name}

abbrev behind : List ℕ → List ℕ → Option ℕ → List ℕ
behind last s none = last
behind last s (some k) = drop (suc k) s

base_loop_lem :
    (last s : List ℕ) → All (λ c. 0 < c) s → base_loop last s ≡ behind last s (rfind slash s)
unfolding base_loop rfind
base_loop_lem last [] h = refl
base_loop_lem last (c ∷ s) h =
    ap (λ t. if c == 0 then last else t) (base_loop_lem (if c == slash then s else last) s h.1)
    ∙ found c (rfind slash s) h.0
  where
    found :
        (c : ℕ) (o : Option ℕ)
        → 0 < c
        → (if c == 0 then last else behind (if c == slash then s else last) s o)
          ≡ behind last
              (c ∷ s)
              (elim o [ some k ↦ some (suc k) | none ↦ if c == slash then some 0 else none ])
    found c none h = ground (arith, h)
    found c (some k) h = ground (arith, h)

rfind-inside : (c : ℕ) (s : List ℕ) → name_start (rfind c s) ≤ length s
unfolding rfind
rfind-inside c [] = omega arith
rfind-inside c (x ∷ s) = inside (rfind c s) (rfind-inside c s)
  where
    inside :
        (o : Option ℕ)
        → name_start o ≤ length s
        → name_start (elim o [ some k ↦ some (suc k) | none ↦ if x == c then some 0 else none ])
          ≤ suc (length s)
    inside none h = ground arith
    inside (some k) h = omega (arith, h)

-- For a path without a zero byte, baseFileName of the logger points at what getFileName of the file
-- helper returns when the extension stays.
pub base_file_name-get_file_name :
    (full_path : List ℕ)
    → All (λ c. 0 < c) full_path
    → (t : List ℕ) × ((base_file_name (some full_path) ≡ some t)
        × (get_file_name full_path false ≡ ok t))
unfolding base_file_name get_file_name
base_file_name-get_file_name s h = (
  drop (name_start (rfind slash s)) s,
  (
    ap some (base_loop_lem s s h ∙ same (rfind slash s)),
    rw (le→ltb (length s) (name_start (rfind slash s)) (rfind-inside slash s)) refl,
  ),
)
  where
    same : (o : Option ℕ) → behind s s o ≡ drop (name_start o) s
    same none = refl
    same (some k) = refl
