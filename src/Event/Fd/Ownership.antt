-- ===== src/Event/Fd/Ownership.antt =====
-- No program dereferences a block that is gone, and what plain assignment loses.
use cpptool_box.Base.{
  ℕ, suc, ◌+◌, ◌^◌, ◌≤◌, ◌<◌, ltb, ◌⊎◌, Bool-cases, ◌≡◌, ◌≢◌, refl, List, [], ◌∷◌, Option, none,
  some, true, false, arith, ℤ, get_elem?, ◌∙◌, Option-cases, inl, inr,
}
use cpptool_box.Event.Fd.{
  Detail, Heap, Fd, alloc, new_fd, new_fd_func, destroy, copy, assign, reset, move_assign, close,
  get,
}
use cpptool_box.Event.Fd.World.{
  World, handles, points, set_var, remove_var, handles-set_var, handles-remove_var, handles-pos,
  get_elem?-set_var_ne,
}

-- What one statement of a program does to its objects.
pub data Step (w : World) : World → Type 0 where
  opens :
      (fd : ℤ)
      → Step w (record { heap = (new_fd fd w.heap).1; vars = (new_fd fd w.heap).0 ∷ w.vars })
  opens_func :
      (fd : ℤ)
      → Step w
          (record { heap = (new_fd_func fd w.heap).1; vars = (new_fd_func fd w.heap).0 ∷ w.vars })
  nulls : Step w (record w { vars = none ∷ w.vars })
  copies :
      (i : ℕ) (v v' : Fd) (h : Heap)
      → get_elem? w.vars i ≡ some v
      → copy v w.heap ≡ some (v', h)
      → Step w (record { heap = h; vars = v' ∷ w.vars })
  assigns :
      (i j : ℕ) (v u v' : Fd) (h : Heap)
      → i ≢ j
      → get_elem? w.vars i ≡ some v
      → get_elem? w.vars j ≡ some u
      → assign v u w.heap ≡ some (v', h)
      → Step w (record { heap = h; vars = set_var w.vars i v' })
  moves :
      (i j : ℕ) (v u v' u' : Fd) (h : Heap)
      → i ≢ j
      → get_elem? w.vars i ≡ some v
      → get_elem? w.vars j ≡ some u
      → move_assign v u w.heap ≡ some (v', u', h)
      → Step w (record { heap = h; vars = set_var (set_var w.vars i v') j u' })
  resets :
      (i : ℕ) (v v' : Fd) (h : Heap)
      → get_elem? w.vars i ≡ some v
      → reset v w.heap ≡ some (v', h)
      → Step w (record { heap = h; vars = set_var w.vars i v' })
  closes :
      (i : ℕ) (v : Fd) (h : Heap)
      → get_elem? w.vars i ≡ some v
      → close v w.heap ≡ some h
      → Step w (record w { heap = h })
  destroys :
      (i : ℕ) (v : Fd) (h : Heap)
      → get_elem? w.vars i ≡ some v
      → destroy v w.heap ≡ some h
      → Step w (record { heap = h; vars = remove_var w.vars i })

-- A block has at least as many references as objects point to it, and an int can hold their number; a
-- block that is gone has none.
abbrev pub Counted : Option Detail → ℕ → Type 0
Counted none n = n ≡ 0
Counted (some d) n = (n ≤ d.ref_count) × (d.ref_count < 2 ^ 31)

pub record IsSound (w : World) : Type 0 where
  pub counted : (p : ℕ) → Counted (w.heap.cell p) (handles p w.vars)
  pub fresh : (p : ℕ) → w.heap.next ≤ p → w.heap.cell p ≡ none

opens-IsSound :
    (w : World) (d : Detail)
    → d.ref_count ≡ 1
    → IsSound w
    → IsSound (record { heap = (alloc d w.heap).1; vars = (alloc d w.heap).0 ∷ w.vars })
opens-IsSound w d e v = record {
  counted = λ p. ground (arith, v.counted p, v.fresh p);
  fresh = λ p h. ground (arith, v.fresh p);
}

copies-IsSound :
    (w : World) (i : ℕ) (v v' : Fd) (h : Heap)
    → get_elem? w.vars i ≡ some v
    → copy v w.heap ≡ some (v', h)
    → IsSound w
    → IsSound (record { heap = h; vars = v' ∷ w.vars })
unfolding copy
copies-IsSound w i none v' h e c s = record {
  counted = λ p. ground (arith, s.counted p);
  fresh = λ p k. ground (arith, s.fresh p);
}
copies-IsSound w i (some q) v' h e c s = record {
  counted = λ p. ground (arith, s.counted p);
  fresh = λ p k. ground (arith, s.fresh p);
}

pub assigns-IsSound :
    (w : World) (i j : ℕ) (v u v' : Fd) (h : Heap)
    → get_elem? w.vars i ≡ some v
    → get_elem? w.vars j ≡ some u
    → assign v u w.heap ≡ some (v', h)
    → IsSound w
    → IsSound (record { heap = h; vars = set_var w.vars i v' })
unfolding assign
assigns-IsSound w i j v none v' h e e' c s = record {
  counted = λ p. ground (arith, s.counted p, handles-set_var p w.vars i v v e);
  fresh = λ p k. ground (arith, s.fresh p);
}
assigns-IsSound w i j v (some q) v' h e e' c s = record {
  counted = λ p. ground (arith, s.counted p, handles-set_var p w.vars i (some q) v e);
  fresh = λ p k. ground (arith, s.fresh p);
}

closes-IsSound :
    (w : World) (v : Fd) (h : Heap)
    → close v w.heap ≡ some h
    → IsSound w
    → IsSound (record w { heap = h })
unfolding close
closes-IsSound w none h c s = record {
  counted = λ p. ground (arith, s.counted p);
  fresh = λ p k. ground (arith, s.fresh p);
}
closes-IsSound w (some q) h c s = record {
  counted = λ p. ground (arith, s.counted p);
  fresh = λ p k. ground (arith, s.fresh p);
}

-- The heap after `~Fd()` of an object that is no longer among the variables.
destroys-IsSound :
    (w : World) (vars : List Fd) (v : Fd) (h : Heap)
    → ((p : ℕ) → handles p vars + points p v ≡ handles p w.vars)
    → destroy v w.heap ≡ some h
    → IsSound w
    → IsSound (record { heap = h; vars = vars })
unfolding destroy
destroys-IsSound w vars none h n c s = record {
  counted = λ p. ground (arith, s.counted p, n p);
  fresh = λ p k. ground (arith, s.fresh p);
}
destroys-IsSound w vars (some q) h n c s = record {
  counted = λ p. ground (arith, s.counted p, n p);
  fresh = λ p k. ground (arith, s.fresh p);
}

-- `reset` leaves a null object and destroys what it held.
pub reset_lem :
    (v v' : Fd) (h h' : Heap) → reset v h ≡ some (v', h') → (v' ≡ none) × (destroy v h ≡ some h')
unfolding reset
reset_lem v v' h h' e = elim (Option-cases (destroy v h)) [
  | inl fault ↦ ground (arith, fault)
  | inr (h2, done) ↦ ground (arith, done)
]

pub move_assign_lem :
    (v u v' u' : Fd) (h h' : Heap)
    → move_assign v u h ≡ some (v', u', h')
    → (v' ≡ u) × (u' ≡ none) × (destroy v h ≡ some h')
unfolding move_assign reset
move_assign_lem v u v' u' h h' e = elim (Option-cases (destroy v h)) [
  | inl fault ↦ ground (arith, fault)
  | inr (h2, done) ↦ ground (arith, done)
]

moves-IsSound :
    (w : World) (i j : ℕ) (v u : Fd) (h : Heap)
    → i ≢ j
    → get_elem? w.vars i ≡ some v
    → get_elem? w.vars j ≡ some u
    → destroy v w.heap ≡ some h
    → IsSound w
    → IsSound (record { heap = h; vars = set_var (set_var w.vars i u) j none })
moves-IsSound w i j v u h ne e e' c =
    destroys-IsSound w (set_var (set_var w.vars i u) j none) v h
      (λ p. omega (
        arith,
        handles-set_var p w.vars i u v e,
        handles-set_var p (set_var w.vars i u) j none u (get_elem?-set_var_ne w.vars i j u ne ∙ e'),
      ))
      c

-- Every statement keeps the counts: a block never has fewer references than objects that point to it.
pub Step-IsSound : {w w' : World} → Step w w' → IsSound w → IsSound w'
unfolding new_fd new_fd_func
Step-IsSound {w} (opens fd) s =
    opens-IsSound w (record { fd = fd; ref_count = 1; close_func = false }) refl s
Step-IsSound {w} (opens_func fd) s =
    opens-IsSound w (record { fd = fd; ref_count = 1; close_func = true }) refl s
Step-IsSound {w} nulls s = record {
  counted = λ p. ground (arith, s.counted p);
  fresh = λ p k. ground (arith, s.fresh p);
}
Step-IsSound {w} (copies i v v' h e c) s = copies-IsSound w i v v' h e c s
Step-IsSound {w} (assigns i j v u v' h ne e e' c) s = assigns-IsSound w i j v u v' h e e' c s
Step-IsSound {w} (moves i j v u v' u' h ne e e' c) s =
    let (a, b, d) = move_assign_lem v u v' u' w.heap h c in
    rw (a, b) (moves-IsSound w i j v u h ne e e' d s)
Step-IsSound {w} (resets i v v' h e c) s =
    let (a, d) = reset_lem v v' w.heap h c in
    rw a (
      destroys-IsSound w (set_var w.vars i none) v h
        (λ p. omega (arith, handles-set_var p w.vars i none v e)) d s)
Step-IsSound {w} (closes i v h e c) s = closes-IsSound w v h c s
Step-IsSound {w} (destroys i v h e c) s =
    destroys-IsSound w (remove_var w.vars i) v h (λ p. handles-remove_var p w.vars i v e) c s

-- The program before its first statement.
abbrev pub blank : World
blank = record { heap = record { cell = λ p. none; next = 0; log = [] }; vars = [] }

pub data Reach : World → Type 0 where
  start : Reach blank
  next : {w w' : World} → Reach w → Step w w' → Reach w'

pub Reach-IsSound : {w : World} → Reach w → IsSound w
Reach-IsSound start = record { counted = λ p. omega arith; fresh = λ p k. refl }
Reach-IsSound (next r s) = Step-IsSound s (Reach-IsSound r)

pub held :
    (w : World) (i p : ℕ)
    → IsSound w
    → get_elem? w.vars i ≡ some (some p)
    → (d : Detail) × (w.heap.cell p ≡ some d)
held w i p s e = elim (Option-cases (w.heap.cell p)) [
  | inl gone ↦ absurd (ground (arith, s.counted p, handles-pos p w.vars i e))
  | inr found ↦ found
]

-- The block has as many references as an int can count.
abbrev pub Full : Option Detail → Type 0
Full none = ⊥
Full (some d) = suc d.ref_count ≡ 2 ^ 31

abbrev pub IsFull : Heap → Fd → Type 0
IsFull h none = ⊥
IsFull h (some p) = Full (h.cell p)

-- However a program copies, assigns, moves, resets, closes and destroys its objects, as long as no copy
-- or assignment counts a reference past the greatest int, none of them points to a block that is gone:
-- to destroy or close any of them, or to read its descriptor, is no fault, and to copy it is one only
-- where the count of its block is at the greatest int.
pub no_dangling :
    {w : World} (i : ℕ) (v : Fd)
    → Reach w
    → get_elem? w.vars i ≡ some v
    → (destroy v w.heap ≢ none)
      × ((copy v w.heap ≢ none) ⊎ IsFull w.heap v)
      × (close v w.heap ≢ none)
      × (get v w.heap ≢ none)
unfolding destroy copy close get
no_dangling i none r e = (ground arith, inl (ground arith), ground arith, ground arith)
no_dangling {w} i (some p) r e =
    let s = Reach-IsSound r in
    let (d, f) = held w i p s e in
    (ground (arith, f), copied d f (s.counted p), ground (arith, f), ground (arith, f))
  where
    copied :
        (d : Detail)
        → w.heap.cell p ≡ some d
        → Counted (w.heap.cell p) (handles p w.vars)
        → (copy (some p) w.heap ≢ none) ⊎ IsFull w.heap (some p)
    copied d f c = elim (Bool-cases (ltb (suc d.ref_count) (2 ^ 31))) [
      | inl a ↦ inl (unfold copy in ground (arith, f, a))
      | inr a ↦ inr (ground (arith, f, a, c))
    ]
