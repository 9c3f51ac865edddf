-- ===== src/Event/Fd.antt =====
-- gwcpp/event/Fd.h and Fd.cpp: reference-counted file descriptors. The heap holds the `Detail`
-- blocks; an `Fd` object is a pointer into it, `none` for the null pointer.
pub mod World
pub mod Ownership
pub mod Leaks
pub mod Calls
use cpptool_box.Base.{
  ℕ, suc, ltb, ◌+◌, ◌-◌, ◌^◌, List, [], ◌∷◌, Option, none, some, Bool, true, false, ◌&&◌, ◌==◌,
  if◌then◌else◌, ℤ, pos, negsuc, leb_ℤ, ltb_ℤ,
}

-- `close_func` is recorded as whether one is set. `ref_count` is an int that is never negative: it starts
-- at 1, and the block goes when it comes to 0.
pub record Detail : Type 0 where
  pub fd : ℤ
  pub ref_count : ℕ
  pub close_func : Bool

-- How a descriptor was closed: by the function of its owner or by the system call.
pub data Closed : Type 0 where
  by_func by_system : ℤ → Closed

-- `next` is the address of the next `new`; `log` holds what was closed, the latest first.
pub record Heap : Type 0 where
  pub cell : ℕ → Option Detail
  pub next : ℕ
  pub log : List Closed

abbrev pub Fd : Type 0
Fd = Option ℕ

abbrev pub update : (ℕ → Option Detail) → ℕ → Option Detail → ℕ → Option Detail
update f p v q = if p == q then v else f q

abbrev pub alloc : Detail → Heap → Fd × Heap
alloc d h = (some h.next, record h { cell = update h.cell h.next (some d); next = suc h.next })

-- `Fd()`.
unfoldable pub new_null : Heap → Fd × Heap
new_null h = (none, h)

-- `Fd(int)`.
unfoldable pub new_fd : ℤ → Heap → Fd × Heap
new_fd fd h = alloc (record { fd = fd; ref_count = 1; close_func = false }) h

-- `Fd(int, const CloseFunc&)`.
unfoldable pub new_fd_func : ℤ → Heap → Fd × Heap
new_fd_func fd h = alloc (record { fd = fd; ref_count = 1; close_func = true }) h

-- The closing call of a block, if it holds a descriptor.
abbrev pub closing : Detail → List Closed → List Closed
closing d log =
    if leb_ℤ (pos 0) d.fd
    then (if d.close_func then by_func d.fd ∷ log else by_system d.fd ∷ log)
    else log

abbrev pub release_block : ℕ → Detail → Heap → Heap
release_block p d h =
    if d.ref_count - 1 == 0
    then record h { cell = update h.cell p none; log = closing d h.log }
    else record h { cell = update h.cell p (some (record d { ref_count = d.ref_count - 1 })) }

-- `~Fd()`. A pointer to a block that is gone is a fault, `none`.
unfoldable pub destroy : Fd → Heap → Option Heap
destroy none h = some h
destroy (some p) h = elim (h.cell p) [ none ↦ none | some d ↦ some (release_block p d h) ]

-- `++other.detail_->ref_count`, for the pointer that is then shared: past the greatest int it is
-- undefined, a fault too.
unfoldable pub share : ℕ → Heap → Option Heap
share p h = elim (h.cell p) [
  | none ↦ none
  | some d ↦
      if ltb (suc d.ref_count) (2 ^ 31)
      then some
          (record h { cell = update h.cell p (some (record d { ref_count = suc d.ref_count })) })
      else none
]

-- `Fd(const Fd&)`.
unfoldable pub copy : Fd → Heap → Option (Fd × Heap)
unfolding share
copy none h = some (none, h)
copy (some p) h = elim (share p h) [ none ↦ none | some h' ↦ some (some p, h') ]

-- `operator=(const Fd&)` from another object: what `this` points to afterwards.
unfoldable pub assign : Fd → Fd → Heap → Option (Fd × Heap)
unfolding share
assign this none h = some (this, h)
assign this (some p) h = elim (share p h) [ none ↦ none | some h' ↦ some (some p, h') ]

-- `swap(Fd&)`: the two pointers afterwards.
unfoldable pub swap : Fd → Fd → Fd × Fd
swap this other = (other, this)

-- `reset()`: a null object takes the pointer and is destroyed.
unfoldable pub reset : Fd → Heap → Option (Fd × Heap)
unfolding swap
reset this h =
    let (this', tmp) = swap this none in
    elim (destroy tmp h) [ none ↦ none | some h' ↦ some (this', h') ]

-- `Fd(Fd&&)`: the new object and the one moved from.
unfoldable pub move_construct : Fd → Fd × Fd
unfolding swap
move_construct other = swap none other

-- `operator=(Fd&&)` from another object.
unfoldable pub move_assign : Fd → Fd → Heap → Option (Fd × Fd × Heap)
unfolding swap
move_assign this other h = elim (reset this h) [
  | none ↦ none
  | some (this', h') ↦ some ((swap this' other).0, (swap this' other).1, h')
]

-- `close()`.
abbrev pub close_block : ℕ → Detail → Heap → Heap
close_block p d h =
    if leb_ℤ (pos 0) d.fd
    then record h {
      cell = update h.cell p (some (record d { fd = negsuc 0; close_func = false }));
      log = closing d h.log;
    }
    else h

unfoldable pub close : Fd → Heap → Option Heap
close none h = some h
close (some p) h = elim (h.cell p) [ none ↦ none | some d ↦ some (close_block p d h) ]

-- `isNull()` and `get()`.
unfoldable pub is_null : Fd → Heap → Option Bool
is_null none h = some true
is_null (some p) h = elim (h.cell p) [
  | none ↦ none
  | some d ↦ some (leb_ℤ d.fd (negsuc 0) && leb_ℤ (negsuc 0) d.fd)
]

unfoldable pub get : Fd → Heap → Option ℤ
get none h = some (negsuc 0)
get (some p) h = elim (h.cell p) [ none ↦ none | some d ↦ some d.fd ]
