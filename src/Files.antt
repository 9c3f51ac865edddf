-- ===== src/Files.antt =====
-- gwcpp/base/FileHelper.cpp: paths as lists of bytes, and the walks over directories.
pub mod Names
pub mod Ensure
pub mod Walks
pub mod Delete
use cpptool_box.Base.{
  ℕ, zero, suc, ◌+◌, ◌-◌, List, [], ◌∷◌, ◌++◌, Bool, true, false, not, ◌&&◌, ◌||◌, Option, none,
  some, if◌then◌else◌, ltb, ◌==◌, length, take, drop, c_str, Result, substr, substr_from,
}

-- '/' and '.'.
abbrev pub slash : ℕ
slash = 47

abbrev pub dot : ℕ
dot = 46

-- `s.rfind(c)`; none for npos.
unfoldable pub rfind : ℕ → List ℕ → Option ℕ
rfind c [] = none
rfind c (x ∷ s) = elim (rfind c s) [
  | some k ↦ some (suc k)
  | none ↦ if x == c then some 0 else none
]

abbrev pub is_empty : List ℕ → Bool
is_empty [] = true
is_empty (c ∷ s) = false

abbrev pub front_is : ℕ → List ℕ → Bool
front_is c [] = false
front_is c (x ∷ s) = x == c

abbrev pub back_is : ℕ → List ℕ → Bool
back_is c [] = false
back_is c (x ∷ []) = x == c
back_is c (x ∷ y ∷ s) = back_is c (y ∷ s)

unfoldable pub get_absolute_path : List ℕ → List ℕ → List ℕ
get_absolute_path prefix relative_path =
    if is_empty relative_path
    then prefix
    else if is_empty prefix || front_is slash relative_path
    then relative_path
    else if back_is slash prefix
    then prefix ++ relative_path
    else prefix ++ (slash ∷ relative_path)

abbrev pub name_start : Option ℕ → ℕ
name_start none = 0
name_start (some k) = suc k

-- The end of the name, if the extension is to go and stands behind the start.
abbrev pub name_end : Bool → ℕ → Option ℕ → Option ℕ
name_end true start (some end) = if ltb end start then none else some end
name_end true start none = none
name_end false start o = none

abbrev pub name_between : List ℕ → ℕ → Option ℕ → Result (List ℕ)
name_between path start none = substr_from path start
name_between path start (some end) = substr path start (end - start)

unfoldable pub get_file_name : List ℕ → Bool → Result (List ℕ)
get_file_name path remove_extension =
    let start = name_start (rfind slash path) in
    name_between path start (name_end remove_extension start (rfind dot path))

-- What `mkdir` says: done, EEXIST, or another error.
pub data Made : Type 0 where
  done exists fails : Made

-- `mkdir` changes the file system `Fs`.
module _ {Fs : Type 0} (mkdir : Fs → List ℕ → Made × Fs) where
  abbrev pub is_made : Made → Bool
  is_made fails = false
  is_made m = true

  -- The loop from the byte at `i` on, with what stands in front of it.
  unfoldable pub ensure_loop : Fs → List ℕ → List ℕ → Bool × Fs
  ensure_loop fs path [] = (is_made (mkdir fs (c_str path)).0, (mkdir fs (c_str path)).1)
  ensure_loop fs path (c ∷ rest) =
      let next = ensure_loop fs (path ++ (c ∷ [])) rest in
      let after = ensure_loop (mkdir fs (c_str path)).1 (path ++ (c ∷ [])) rest in
      if c == slash
      then (if is_made (mkdir fs (c_str path)).0 then after else (false, (mkdir fs (c_str path)).1))
      else next

  -- `ensureDirectory`: the loop begins at the second byte.
  unfoldable pub ensure_directory : Fs → List ℕ → Bool × Fs
  ensure_directory fs path = ensure_loop fs (take 1 path) (drop 1 path)

-- A directory as `readdir` lists it: names with a file or another directory.
mutual
  pub data Node : Type 0 where
    file : Node
    dir : Entries → Node

  pub data Entries : Type 0 where
    end : Entries
    entry : List ℕ → Node → Entries → Entries

-- `strcmp(a, b) == 0`.
abbrev pub same_text : List ℕ → List ℕ → Bool
same_text [] [] = true
same_text [] (y ∷ b) = false
same_text (x ∷ a) [] = false
same_text (x ∷ a) (y ∷ b) = (x == y) && same_text a b

-- "." and "..".
abbrev pub is_dots : List ℕ → Bool
is_dots name = same_text name (dot ∷ []) || same_text name (dot ∷ dot ∷ [])

-- `path + "/" + name`.
abbrev pub below : List ℕ → List ℕ → List ℕ
below path name = path ++ (slash ∷ name)

-- What the walks need of the system: whether a directory opens, whether `ensureDirectory` and
-- `copyFile` succeed, and whether `unlink` does.
module _ (opens : List ℕ → Bool) (ensures : List ℕ → Bool) (copies : List ℕ → List ℕ → Bool)
    (unlinks : List ℕ → Bool) where
  -- The result of a copy and the files that were copied, in order.
  abbrev pub Copied : Type 0
  Copied = Bool × List (List ℕ × List ℕ)

  -- `copyDir` by what the two calls in front of its loop return.
  abbrev pub opened : Bool → Bool → Copied → Copied
  opened true true walk = walk
  opened a b walk = (false, [])

  -- `ret &= r`, with the loop going on.
  abbrev pub both : Copied → Copied → Copied
  both r rest = (r.0 && rest.0, r.1 ++ rest.1)

  mutual
    pub copy_entries : Entries → List ℕ → List ℕ → Copied
    copy_entries end from to = (true, [])
    copy_entries (entry name n es) from to =
        if is_dots name
        then copy_entries es from to
        else both (copy_node n (below from name) (below to name)) (copy_entries es from to)

    pub copy_node : Node → List ℕ → List ℕ → Copied
    copy_node file from to = (copies from to, (from, to) ∷ [])
    copy_node (dir es) from to = opened (opens from) (ensures to) (copy_entries es from to)

  -- `copyDir`.
  abbrev pub copy_dir : Entries → List ℕ → List ℕ → Copied
  copy_dir es from to = opened (opens from) (ensures to) (copy_entries es from to)

  -- The loop of `removeAllFiles`, with the paths that were unlinked.
  unfoldable pub remove_loop : List (List ℕ) → List ℕ → Bool × List (List ℕ)
  remove_loop [] directory_path = (true, [])
  remove_loop (name ∷ names) directory_path =
      let rest = remove_loop names directory_path in
      if is_dots name
      then rest
      else if unlinks (below directory_path name)
      then (rest.0, below directory_path name ∷ rest.1)
      else (false, [])

  unfoldable pub remove_all_files : List (List ℕ) → List ℕ → Bool × List (List ℕ)
  remove_all_files names directory_path =
      if opens directory_path then remove_loop names directory_path else (false, [])

  -- The loop of `listSubPaths` over names with their types.
  unfoldable pub list_loop : List (List ℕ × ℕ) → ℕ → List (List ℕ)
  list_loop [] d_type = []
  list_loop ((name, t) ∷ names) d_type =
      if (t == d_type) && not (is_dots name)
      then name ∷ list_loop names d_type
      else list_loop names d_type

  unfoldable pub list_sub_paths : List (List ℕ × ℕ) → List ℕ → ℕ → List (List ℕ)
  list_sub_paths names directory_path d_type =
      if opens directory_path then list_loop names d_type else []
