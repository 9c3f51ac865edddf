-- ===== src/Files/Delete/Order.antt =====
-- The order in which deleteFile removes what a directory holds.
use mathlib.Core.List.{append_assoc}
use cpptool_box.Base.{
  ℕ, ◌≡◌, refl, sym, ap, ◌∙◌, List, [], ◌∷◌, ◌++◌, Bool, true, Bool-cases, inl, inr, if◌then◌else◌,
}
use cpptool_box.Files.{Node, file, dir, Entries, end, entry, is_dots, below}
use cpptool_box.Files.Delete.{delete_entries, delete_file}

-- The paths of a directory's tree, what a directory holds in front of the directory.
unfoldable mutual
  pub post_order : Entries → List ℕ → List (List ℕ)
  post_order end path = []
  post_order (entry name n es) path =
      if is_dots name
      then post_order es path
      else post_order_node n (below path name) ++ post_order es path

  pub post_order_node : Node → List ℕ → List (List ℕ)
  post_order_node file path = path ∷ []
  post_order_node (dir es) path = post_order es path ++ (path ∷ [])

-- Each twice.
abbrev pub twice : List (List ℕ) → List (List ℕ)
twice [] = []
twice (q ∷ qs) = q ∷ q ∷ twice qs

twice-append : (ps qs : List (List ℕ)) → twice (ps ++ qs) ≡ twice ps ++ twice qs
twice-append [] qs = refl
twice-append (p ∷ ps) qs = ap (λ t. p ∷ p ∷ t) (twice-append ps qs)

module _ (exists types opens removes : List ℕ → Bool) (exist_all : (p : List ℕ) → exists p ≡ true)
    (type_all : (p : List ℕ) → types p ≡ true) (open_all : (p : List ℕ) → opens p ≡ true) where
  mutual
    unfolding delete_entries delete_file post_order post_order_node

    entries_lem :
        (es : Entries) (path : List ℕ)
        → delete_entries exists types opens removes es path ≡ (true, twice (post_order es path))
    entries_lem end path = refl
    entries_lem (entry name n es) path = elim (Bool-cases (is_dots name)) [
      | inl e ↦ rw (e) (entries_lem es path)
      | inr e ↦
          rw (e, type_all (below path name), entries_lem es path)
            (ap (λ t. (true, t))
              (sym (
                  append_assoc (delete_file exists types opens removes n (below path name)).1
                    (below path name ∷ []) (twice (post_order es path)))
                ∙ (ap (λ t. t ++ twice (post_order es path)) (node_lem n (below path name))
                    ∙ sym
                        (twice-append (post_order_node n (below path name)) (post_order es path)))))
    ]

    -- With the call of remove behind it.
    node_lem :
        (n : Node) (path : List ℕ)
        → (delete_file exists types opens removes n path).1 ++ (path ∷ [])
          ≡ twice (post_order_node n path)
    node_lem file path = rw (exist_all path, type_all path) refl
    node_lem (dir es) path =
        rw (exist_all path, type_all path, open_all path, entries_lem es path)
          (append_assoc (twice (post_order es path)) (path ∷ []) (path ∷ [])
            ∙ sym (twice-append (post_order es path) (path ∷ [])))

  -- Where every path exists, has a type and opens as a directory, deleteFile returns true for a
  -- directory and calls remove for each file and directory in it, twice and behind what that directory
  -- holds, and for the directory itself at the end.
  pub delete_file-post_order :
      (es : Entries) (path : List ℕ)
      → delete_file exists types opens removes (dir es) path
        ≡ (true, twice (post_order es path) ++ (path ∷ []))
  unfolding delete_file
  delete_file-post_order es path =
      rw (exist_all path, type_all path, open_all path, entries_lem es path) refl
