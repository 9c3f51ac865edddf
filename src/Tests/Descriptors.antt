-- ===== src/Tests/Descriptors.antt =====
-- Tests of gwcpp/event/Fd.
use cpptool_box.Base.{◌⊎◌, ℤ, ◌≡◌, ◌≢◌, refl, true, false, [], ◌∷◌, Option, none, some, pos}
use cpptool_box.Event.Fd.{Fd, Heap, new_fd, copy, close, get, destroy}
use cpptool_box.Event.Fd.Calls.{
  Word, bit_or, eq_word, Command, get_fl, get_fd, set_fl, set_changed, set_non_block,
  set_close_on_exec,
}
use cpptool_box.Event.Fd.World.{World}
use cpptool_box.Event.Fd.Ownership.{Reach, blank, start, next, opens, no_dangling, IsFull}

-- A program that opened descriptor 3.
abbrev one : World
one = record {
  heap = (new_fd (pos 3) blank.heap).1;
  vars = (new_fd (pos 3) blank.heap).0 ∷ blank.vars;
}

abbrev two : World
two = record { heap = (new_fd (pos 4) one.heap).1; vars = (new_fd (pos 4) one.heap).0 ∷ one.vars }

two-Reach : Reach two
two-Reach = next (next start (opens (pos 3))) (opens (pos 4))

no_dangling_example :
    (destroy (some 1) two.heap ≢ none)
    × ((copy (some 1) two.heap ≢ none) ⊎ IsFull two.heap (some 1))
    × (close (some 1) two.heap ≢ none)
    × (get (some 1) two.heap ≢ none)
unfolding new_fd
no_dangling_example = no_dangling 0 (some 1) two-Reach refl

-- The heap after the second object's content is assigned to the first.
abbrev assigned : Option (Fd × Heap) → Heap
assigned none = two.heap
assigned (some (v, h)) = h

-- A kernel with one file, its flags and the flags of its descriptor, of two bits each.
abbrev kernel : ℤ → Command → Word × Word → Word × (Word × Word)
kernel fd get_fl (f, d) = (f, (f, d))
kernel fd get_fd (f, d) = (d, (f, d))
kernel fd (set_fl w) (f, d) = (w, (w, d))

abbrev off : Word
off = false ∷ false ∷ []

abbrev low : Word
low = true ∷ false ∷ []

abbrev high : Word
high = false ∷ true ∷ []

set_non_block-on :
    set_non_block kernel high low true (some 0) one.heap (low, off) ≡ some (true ∷ true ∷ [], off)
unfolding new_fd set_non_block set_changed eq_word bit_or
set_non_block-on = refl

-- The word that should be the flags of the descriptor is stored as the flags of the file.
set_close_on_exec-file :
    set_close_on_exec kernel high low (some 0) one.heap (high, off) ≡ some (low, off)
unfolding new_fd set_close_on_exec set_changed eq_word bit_or
set_close_on_exec-file = refl
