-- ===== src/Tests/Files.antt =====
-- Tests of the paths and directories of gwcpp/base.
use cpptool_box.Base.{
  All, length, ◌==◌, if◌then◌else◌, Bool-cases, inl, inr, ℕ, ◌≡◌, refl, List, [], ◌∷◌, ◌++◌, Bool,
  true, false, ok, arith,
}
use cpptool_box.Files.{
  dot, get_absolute_path, get_file_name, Made, done, ensure_loop, ensure_directory, file, dir,
  Entries, end, entry, copy_dir,
}
use cpptool_box.Files.Names.{get_file_name-get_absolute_path}
use cpptool_box.Files.Ensure.{IsWritable, ancestors, ensure_directory-makes}
use cpptool_box.Files.Delete.{delete_file}
use cpptool_box.Files.Delete.Order.{post_order, post_order_node, twice, delete_file-post_order}
use cpptool_box.Files.Walks.{files, files_node, placed, all_copied, copy_dir-files}

-- "a.b" in "/c".
get_file_name-get_absolute_path_example :
    (get_file_name (get_absolute_path (47 ∷ 99 ∷ []) ((97 ∷ []) ++ (dot ∷ 98 ∷ []))) false
      ≡ ok ((97 ∷ []) ++ (dot ∷ 98 ∷ [])))
    × (get_file_name (get_absolute_path (47 ∷ 99 ∷ []) ((97 ∷ []) ++ (dot ∷ 98 ∷ []))) true
        ≡ ok (97 ∷ []))
get_file_name-get_absolute_path_example =
    get_file_name-get_absolute_path (47 ∷ 99 ∷ []) (97 ∷ []) (98 ∷ []) (refl, (refl, (refl, tt)))
      (refl, tt)

-- A file system is the list of its directories; the one without a name is always there.
data Listed (p : List ℕ) : List (List ℕ) → Type 0 where
  root : {fs : List (List ℕ)} → p ≡ [] → Listed p fs
  here : {fs : List (List ℕ)} → Listed p (p ∷ fs)
  there : {q : List ℕ} {fs : List (List ℕ)} → Listed p fs → Listed p (q ∷ fs)

-- A `mkdir` that finds the directories with names of two bytes, and makes the others; it lists both.
abbrev makes_all : List (List ℕ) → List ℕ → Made × List (List ℕ)
makes_all fs p = (if length p == 2 then Made.exists else done, p ∷ fs)

makes_all-IsWritable : IsWritable makes_all (λ fs p. Listed p fs)
makes_all-IsWritable = record {
  answers = λ fs c p h. elim (Bool-cases (length (c ∷ p) == 2)) [
    | inl e ↦ inr (rw (e) refl)
    | inr e ↦ inl (rw (e) refl)
  ];
  makes = λ fs c p h. here;
  keeps = λ fs p q h. there h;
}

ensure_directory-makes_example :
    (fs : List (List ℕ)) × ((ensure_directory makes_all [] (47 ∷ 97 ∷ 47 ∷ 98 ∷ []) ≡ (true, fs))
      × (Listed (47 ∷ 97 ∷ 47 ∷ 98 ∷ []) fs
          × All (λ p. Listed p fs) (ancestors (47 ∷ []) (97 ∷ 47 ∷ 98 ∷ []))))
ensure_directory-makes_example =
    ensure_directory-makes makes_all (λ fs p. Listed p fs) makes_all-IsWritable [] 47
      (97 ∷ 47 ∷ 98 ∷ []) (omega arith, (omega arith, (omega arith, (omega arith, tt)))) (root refl)

-- The parent is made before it.
ensure_directory-order :
    (ensure_directory makes_all [] (47 ∷ 97 ∷ 47 ∷ 98 ∷ [])).1
    ≡ (47 ∷ 97 ∷ 47 ∷ 98 ∷ []) ∷ (47 ∷ 97 ∷ []) ∷ []
unfolding ensure_directory ensure_loop
ensure_directory-order = refl

-- A file "a" and a directory "d" with a file "b".
abbrev tree : Entries
tree = entry (97 ∷ []) file (entry (100 ∷ []) (dir (entry (98 ∷ []) file end)) end)

abbrev yes_to : List ℕ → Bool
yes_to p = true

abbrev copies_all : List ℕ → List ℕ → Bool
copies_all from to = true

copy_dir-files_example :
    ((copy_dir yes_to yes_to copies_all yes_to tree (115 ∷ []) (116 ∷ [])).1
      ≡ placed (115 ∷ []) (116 ∷ []) (files tree))
    × ((copy_dir yes_to yes_to copies_all yes_to tree (115 ∷ []) (116 ∷ [])).0
        ≡ all_copied copies_all (placed (115 ∷ []) (116 ∷ []) (files tree)))
copy_dir-files_example =
    copy_dir-files yes_to yes_to copies_all yes_to (λ p. refl) (λ p. refl) tree (115 ∷ [])
      (116 ∷ [])

files-tree : files tree ≡ (47 ∷ 97 ∷ []) ∷ (47 ∷ 100 ∷ 47 ∷ 98 ∷ []) ∷ []
unfolding files files_node
files-tree = refl

delete_file-post_order_example :
    delete_file yes_to yes_to yes_to yes_to (dir tree) (115 ∷ [])
    ≡ (true, twice (post_order tree (115 ∷ [])) ++ ((115 ∷ []) ∷ []))
delete_file-post_order_example =
    delete_file-post_order yes_to yes_to yes_to yes_to (λ p. refl) (λ p. refl) (λ p. refl) tree
      (115 ∷ [])

-- "s/a", "s/d/b", "s/d".
post_order-tree :
    post_order tree (115 ∷ [])
    ≡ (115 ∷ 47 ∷ 97 ∷ []) ∷ (115 ∷ 47 ∷ 100 ∷ 47 ∷ 98 ∷ []) ∷ (115 ∷ 47 ∷ 100 ∷ []) ∷ []
unfolding post_order post_order_node
post_order-tree = refl
