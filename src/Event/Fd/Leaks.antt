-- ===== src/Event/Fd/Leaks.antt =====
-- What plain assignment over an object that holds a descriptor loses.
use cpptool_box.Base.{ℕ, ◌<◌, Option, none, some}
use cpptool_box.Event.Fd.{Detail, Fd}
use cpptool_box.Event.Fd.World.{World, handles}
use cpptool_box.Event.Fd.Ownership.{Step}

-- A block with more references than objects that point to it.
abbrev pub Surplus : Option Detail → ℕ → Type 0
Surplus none n = ⊥
Surplus (some d) n = n < d.ref_count

abbrev pub IsLeaked : ℕ → World → Type 0
IsLeaked p w = Surplus (w.heap.cell p) (handles p w.vars)

-- Some statements after one another.
pub data Steps (w : World) : World → Type 0 where
  here : Steps w w
  more : {u v : World} → Steps w u → Step u v → Steps w v
