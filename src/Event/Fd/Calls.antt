-- ===== src/Event/Fd/Calls.antt =====
-- The members of gwcpp/event/Fd.cpp that only use the descriptor, over a kernel with the state `K`.
pub mod Flags
use cpptool_box.Base.{
  ℕ, List, [], ◌∷◌, Option, none, some, Bool, true, false, not, ◌&&◌, ◌||◌, if◌then◌else◌, ℤ, pos,
  negsuc, ltb_ℤ,
}
use cpptool_box.Event.Fd.{Detail, Heap, Fd, new_null, new_fd}

-- An int as its bits, the lowest first; all of them are set in -1.
abbrev pub Word : Type 0
Word = List Bool

-- `w | m`.
unfoldable pub bit_or : Word → Word → Word
bit_or [] m = m
bit_or (x ∷ w) [] = x ∷ w
bit_or (x ∷ w) (y ∷ m) = (x || y) ∷ bit_or w m

-- `w & ~m`.
unfoldable pub bit_clear : Word → Word → Word
bit_clear [] m = []
bit_clear (x ∷ w) [] = x ∷ w
bit_clear (x ∷ w) (y ∷ m) = (x && not y) ∷ bit_clear w m

-- `(w & m) != 0`.
unfoldable pub meets : Word → Word → Bool
meets [] m = false
meets (x ∷ w) [] = false
meets (x ∷ w) (y ∷ m) = (x && y) || meets w m

-- `w == v` for words of one length.
unfoldable pub eq_word : Word → Word → Bool
eq_word [] [] = true
eq_word [] (y ∷ v) = false
eq_word (x ∷ w) [] = false
eq_word (x ∷ w) (y ∷ v) = (if x then y else not y) && eq_word w v

-- The commands F_GETFL, F_GETFD and F_SETFL.
pub data Command : Type 0 where
  get_fl get_fd : Command
  set_fl : Word → Command

-- `read`, `readv`, `write` and `writev` pass the descriptor to the system call of that name; a null
-- object returns -1. A pointer to a block that is gone is a fault, `none`.
unfoldable pub transfer : {K : Type 0} → (ℤ → K → ℤ × K) → Fd → Heap → K → Option (ℤ × K)
transfer call none h k = some (negsuc 0, k)
transfer call (some p) h k = elim (h.cell p) [ none ↦ none | some d ↦ some (call d.fd k) ]

-- `Open(filename, flags)`, where `sys_open` is the system call: a failure is the null object.
unfoldable pub open_file :
    {K : Type 0} → (List ℕ → ℤ → K → ℤ × K) → List ℕ → ℤ → Heap → K → (Fd × Heap) × K
open_file sys_open filename flags h k =
    let (fd, k') = sys_open filename flags k in
    (if ltb_ℤ fd (pos 0) then new_null h else new_fd fd h, k')

module _ {K : Type 0} (fcntl : ℤ → Command → K → Word × K) (o_nonblock fd_cloexec : Word) where
  -- `F_SETFL` where the flags differ; what it returns only decides whether an error is logged.
  unfoldable pub set_changed : ℤ → Word → Word → K → K
  set_changed fd old_flags new_flags k =
      if eq_word new_flags old_flags then k else (fcntl fd (set_fl new_flags) k).1

  abbrev pub wanted : Bool → Word → Word
  wanted enable old_flags =
      if enable then bit_or old_flags o_nonblock else bit_clear old_flags o_nonblock

  unfoldable pub set_non_block : Bool → Fd → Heap → K → Option K
  set_non_block enable none h k = some k
  set_non_block enable (some p) h k = elim (h.cell p) [
    | none ↦ none
    | some d ↦
        let (old_flags, k') = fcntl d.fd get_fl k in
        some (set_changed d.fd old_flags (wanted enable old_flags) k')
  ]

  unfoldable pub is_non_block : Fd → Heap → K → Option (Bool × K)
  is_non_block none h k = some (false, k)
  is_non_block (some p) h k = elim (h.cell p) [
    | none ↦ none
    | some d ↦ some (meets (fcntl d.fd get_fl k).0 o_nonblock, (fcntl d.fd get_fl k).1)
  ]

  -- The flags of the descriptor are read, and the flags of the file are set.
  unfoldable pub set_close_on_exec : Fd → Heap → K → Option K
  set_close_on_exec none h k = some k
  set_close_on_exec (some p) h k = elim (h.cell p) [
    | none ↦ none
    | some d ↦
        let (old_flags, k') = fcntl d.fd get_fd k in
        some (set_changed d.fd old_flags (bit_or old_flags fd_cloexec) k')
  ]
