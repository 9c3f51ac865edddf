-- ===== src/Files/Walks.antt =====
-- What a copied directory consists of.
use mathlib.Core.List.{append_assoc, append-nil, map-append}
use cpptool_box.Base.{
  ℕ, ◌≡◌, refl, sym, ap, ◌∙◌, List, [], ◌∷◌, ◌++◌, map, Bool, true, ◌&&◌, Bool-cases, inl, inr,
  if◌then◌else◌, arith,
}
use cpptool_box.Files.{
  slash, Node, file, dir, Entries, end, entry, is_dots, below, copy_entries, copy_node, copy_dir,
  both,
}

-- The files of a directory, as the texts that lead to them from its path.
unfoldable mutual
  pub files : Entries → List (List ℕ)
  files end = []
  files (entry name n es) =
      if is_dots name then files es else map (λ r. slash ∷ name ++ r) (files_node n) ++ files es

  pub files_node : Node → List (List ℕ)
  files_node file = [] ∷ []
  files_node (dir es) = files es

abbrev pub placed : List ℕ → List ℕ → List (List ℕ) → List (List ℕ × List ℕ)
placed from to rs = map (λ r. (from ++ r, to ++ r)) rs

-- Whether each of these copies succeeds.
abbrev pub all_copied : (List ℕ → List ℕ → Bool) → List (List ℕ × List ℕ) → Bool
all_copied copies [] = true
all_copied copies ((f, t) ∷ ps) = copies f t && all_copied copies ps

&&-assoc : (a b c : Bool) → (a && b) && c ≡ a && (b && c)
&&-assoc a b c = ground arith

all_copied-append :
    (copies : List ℕ → List ℕ → Bool) (ps qs : List (List ℕ × List ℕ))
    → all_copied copies (ps ++ qs) ≡ (all_copied copies ps && all_copied copies qs)
all_copied-append copies [] qs = refl
all_copied-append copies ((f, t) ∷ ps) qs =
    ap (λ b. copies f t && b) (all_copied-append copies ps qs)
    ∙ sym (&&-assoc (copies f t) (all_copied copies ps) (all_copied copies qs))

placed-below :
    (name from to : List ℕ) (rs : List (List ℕ))
    → placed (below from name) (below to name) rs ≡ placed from to (map (λ r. slash ∷ name ++ r) rs)
placed-below name from to [] = refl
placed-below name from to (r ∷ rs) =
    rw (append_assoc from (slash ∷ name) r, append_assoc to (slash ∷ name) r)
      (ap (λ t. (from ++ (slash ∷ name ++ r), to ++ (slash ∷ name ++ r)) ∷ t)
        (placed-below name from to rs))

module _ (opens ensures : List ℕ → Bool) (copies : List ℕ → List ℕ → Bool) (unlinks : List ℕ → Bool)
    (open_all : (p : List ℕ) → opens p ≡ true) (ensure_all : (p : List ℕ) → ensures p ≡ true) where
  abbrev Gives : Bool × List (List ℕ × List ℕ) → List (List ℕ × List ℕ) → Type 0
  Gives r ps = r ≡ (all_copied copies ps, ps)

  both-Gives :
      (r s : Bool × List (List ℕ × List ℕ)) (ps qs : List (List ℕ × List ℕ))
      → Gives r ps
      → Gives s qs
      → Gives (both opens ensures copies unlinks r s) (ps ++ qs)
  both-Gives r s ps qs e f =
      rw (e, f) (ap (λ b. (b, ps ++ qs)) (sym (all_copied-append copies ps qs)))

  single :
      (from to f t : List ℕ)
      → f ≡ from
      → t ≡ to
      → Gives (copies from to, (from, to) ∷ []) ((f, t) ∷ [])
  single from to f t e g =
      rw (e, g) (ap (λ b. (b, (from, to) ∷ [])) (sym (&&-true (copies from to))))
    where
      &&-true : (b : Bool) → (b && true) ≡ b
      &&-true b = ground arith

  split :
      (name from to : List ℕ) (rs qs : List (List ℕ))
      → placed (below from name) (below to name) rs ++ placed from to qs
        ≡ placed from to (map (λ r. slash ∷ name ++ r) rs ++ qs)
  split name from to rs qs =
      ap (λ t. t ++ placed from to qs) (placed-below name from to rs)
      ∙ sym (map-append (λ r. (from ++ r, to ++ r)) (map (λ r. slash ∷ name ++ r) rs) qs)

  mutual
    unfolding copy_entries copy_node files files_node

    entries_lem :
        (es : Entries) (from to : List ℕ)
        → Gives (copy_entries opens ensures copies unlinks es from to) (placed from to (files es))
    entries_lem end from to = refl
    entries_lem (entry name n es) from to = elim (Bool-cases (is_dots name)) [
      | inl e ↦ rw (e) (entries_lem es from to)
      | inr e ↦
          rw (e, ← split name from to (files_node n) (files es))
            (both-Gives (copy_node opens ensures copies unlinks n (below from name) (below to name))
              (copy_entries opens ensures copies unlinks es from to)
              (placed (below from name) (below to name) (files_node n)) (placed from to (files es))
              (node_lem n (below from name) (below to name)) (entries_lem es from to))
    ]

    node_lem :
        (n : Node) (from to : List ℕ)
        → Gives (copy_node opens ensures copies unlinks n from to) (placed from to (files_node n))
    node_lem file from to = single from to (from ++ []) (to ++ []) (append-nil from) (append-nil to)
    node_lem (dir es) from to = rw (open_all from, ensure_all to) (entries_lem es from to)

  -- Where every directory opens and can be made, copyDir copies each file below `from` to the same place
  -- below `to`, also behind one that fails, and returns true exactly when all these copies succeed.
  pub copy_dir-files :
      (es : Entries) (from to : List ℕ)
      → ((copy_dir opens ensures copies unlinks es from to).1 ≡ placed from to (files es))
        × ((copy_dir opens ensures copies unlinks es from to).0
            ≡ all_copied copies (placed from to (files es)))
  copy_dir-files es from to = rw (open_all from, ensure_all to, entries_lem es from to) (refl, refl)
