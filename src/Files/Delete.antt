-- ===== src/Files/Delete.antt =====
-- deleteFile of gwcpp/base/FileHelper.cpp: the calls of remove, in order.
pub mod Order
use cpptool_box.Base.{
  ℕ, ◌≡◌, refl, List, [], ◌∷◌, ◌++◌, Bool, true, false, Bool-cases, inl, inr, if◌then◌else◌, All,
  All-append, arith,
}
use cpptool_box.Files.{Node, file, dir, Entries, end, entry, is_dots, below}

-- What it needs of the system: whether a path exists, whether its type can be read, whether a
-- directory opens, and whether `remove` succeeds.
module _ (exists types opens removes : List ℕ → Bool) where
  -- The result and the paths that `remove` was called with.
  abbrev pub Deleted : Type 0
  Deleted = Bool × List (List ℕ)

  -- What follows the loop over a directory.
  abbrev pub closed : List ℕ → Deleted → Deleted
  closed path (ok, calls) = if ok then (true, calls ++ (path ∷ [])) else (false, calls)

  -- The entry is deleted and then removed once more, whatever the two calls return.
  abbrev pub and_then : List ℕ → Deleted → Deleted → Deleted
  and_then path (ok, calls) (rest, others) = (rest, calls ++ (path ∷ others))

  -- `deleteFile` behind the two tests in front.
  abbrev pub tested : List ℕ → Deleted → Deleted
  tested path deleted =
      if exists path then (if types path then deleted else (false, [])) else (true, [])

  unfoldable mutual
    pub delete_entries : Entries → List ℕ → Deleted
    delete_entries end path = (true, [])
    delete_entries (entry name n es) path =
        let rest = delete_entries es path in
        let deleted = delete_file n (below path name) in
        if is_dots name
        then rest
        else if types (below path name)
        then and_then (below path name) deleted rest
        else (false, [])

    pub delete_file : Node → List ℕ → Deleted
    delete_file file path = tested path (removes path, path ∷ [])
    delete_file (dir es) path =
        let loop = closed path (delete_entries es path) in
        tested path (if opens path then loop else (false, []))

  -- A path that leads down from another, by names that are neither "." nor "..".
  pub data Below : List ℕ → List ℕ → Type 0 where
    here : (path : List ℕ) → Below path path
    under : (path name q : List ℕ) → is_dots name ≡ false → Below (below path name) q → Below path q

  lift :
      (path name : List ℕ) (qs : List (List ℕ))
      → is_dots name ≡ false
      → All (Below (below path name)) qs
      → All (Below path) qs
  lift path name [] e h = tt
  lift path name (q ∷ qs) e h = (under path name q e h.0, lift path name qs e h.1)

  tested-Below :
      (path : List ℕ) (deleted : Deleted)
      → All (Below path) deleted.1
      → All (Below path) (tested path deleted).1
  tested-Below path deleted h = chosen (exists path) (types path)
    where
      chosen :
          (a b : Bool)
          → All (Below path) (if a then (if b then deleted else (false, [])) else (true, [])).1
      chosen true true = h
      chosen true false = tt
      chosen false b = tt

  closed-Below :
      (path : List ℕ) (deleted : Deleted)
      → All (Below path) deleted.1
      → All (Below path) (closed path deleted).1
  closed-Below path (true, calls) h = All-append (Below path) calls (path ∷ []) h (here path, tt)
  closed-Below path (false, calls) h = h

  opened-Below :
      (path : List ℕ) (b : Bool) (deleted : Deleted)
      → All (Below path) deleted.1
      → All (Below path) (if b then deleted else (false, [])).1
  opened-Below path true deleted h = h
  opened-Below path false deleted h = tt

  mutual
    unfolding delete_entries delete_file

    entries-Below : (es : Entries) (path : List ℕ) → All (Below path) (delete_entries es path).1
    entries-Below end path = tt
    entries-Below (entry name n es) path = elim (Bool-cases (is_dots name)) [
      | inl e ↦ rw (e) (entries-Below es path)
      | inr e ↦ rw (e) (elim (Bool-cases (types (below path name))) [
        | inl t ↦ rw (t) (
            All-append (Below path) (delete_file n (below path name)).1
              (below path name ∷ (delete_entries es path).1)
              (lift path name (delete_file n (below path name)).1 e
                (node-Below n (below path name)))
              (under path name (below path name) e (here (below path name)), entries-Below es path))
        | inr t ↦ rw (t) tt
      ])
    ]

    node-Below : (n : Node) (path : List ℕ) → All (Below path) (delete_file n path).1
    node-Below file path = tested-Below path (removes path, path ∷ []) (here path, tt)
    node-Below (dir es) path =
        tested-Below path (if opens path then closed path (delete_entries es path) else (false, []))
          (opened-Below path (opens path) (closed path (delete_entries es path))
            (closed-Below path (delete_entries es path) (entries-Below es path)))

  -- Whatever the system answers, deleteFile calls remove only for the path and for what lies below it
  -- by names other than "." and "..".
  pub delete_file-Below : (n : Node) (path : List ℕ) → All (Below path) (delete_file n path).1
  delete_file-Below n path = node-Below n path
