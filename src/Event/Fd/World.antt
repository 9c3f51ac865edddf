-- ===== src/Event/Fd/World.antt =====
-- Programs that hold `Fd` objects: the variables of a program and the steps that they allow.
use cpptool_box.Base.{
  ℕ, zero, suc, ◌+◌, ◌<◌, ◌≡◌, ◌≢◌, refl, ap, List, [], ◌∷◌, none, some, ◌==◌, if◌then◌else◌, arith,
  get_elem?,
}
use cpptool_box.Event.Fd.{Heap, Fd}

-- The objects that are alive.
pub record World : Type 0 where
  pub heap : Heap
  pub vars : List Fd

-- How many of the objects point to a block.
abbrev pub points : ℕ → Fd → ℕ
points p none = 0
points p (some q) = if p == q then 1 else 0

abbrev pub handles : ℕ → List Fd → ℕ
handles p [] = 0
handles p (v ∷ vs) = points p v + handles p vs

pub set_var : List Fd → ℕ → Fd → List Fd
set_var [] i v = []
set_var (x ∷ xs) zero v = v ∷ xs
set_var (x ∷ xs) (suc i) v = x ∷ set_var xs i v

pub remove_var : List Fd → ℕ → List Fd
remove_var [] i = []
remove_var (x ∷ xs) zero = xs
remove_var (x ∷ xs) (suc i) = x ∷ remove_var xs i

pub handles-set_var :
    (p : ℕ) (vs : List Fd) (i : ℕ) (v old : Fd)
    → get_elem? vs i ≡ some old
    → handles p (set_var vs i v) + points p old ≡ handles p vs + points p v
unfolding set_var
handles-set_var p [] i v old e = absurd (cc)
handles-set_var p (x ∷ vs) zero v old e = ground arith
handles-set_var p (x ∷ vs) (suc i) v old e = omega (arith, handles-set_var p vs i v old e)

pub handles-remove_var :
    (p : ℕ) (vs : List Fd) (i : ℕ) (old : Fd)
    → get_elem? vs i ≡ some old
    → handles p (remove_var vs i) + points p old ≡ handles p vs
unfolding remove_var
handles-remove_var p [] i old e = absurd (cc)
handles-remove_var p (x ∷ vs) zero old e = ground arith
handles-remove_var p (x ∷ vs) (suc i) old e = omega (arith, handles-remove_var p vs i old e)

pub handles-pos : (p : ℕ) (vs : List Fd) (i : ℕ) → get_elem? vs i ≡ some (some p) → 0 < handles p vs
handles-pos p [] i e = absurd (cc)
handles-pos p (x ∷ vs) zero e = ground arith
handles-pos p (x ∷ vs) (suc i) e = omega (arith, handles-pos p vs i e)

pub get_elem?-set_var_ne :
    (vs : List Fd) (i j : ℕ) (v : Fd) → i ≢ j → get_elem? (set_var vs i v) j ≡ get_elem? vs j
unfolding set_var
get_elem?-set_var_ne [] i j v h = refl
get_elem?-set_var_ne (x ∷ vs) zero zero v h = absurd (h refl)
get_elem?-set_var_ne (x ∷ vs) zero (suc j) v h = refl
get_elem?-set_var_ne (x ∷ vs) (suc i) zero v h = refl
get_elem?-set_var_ne (x ∷ vs) (suc i) (suc j) v h =
    get_elem?-set_var_ne vs i j v (λ e. h (ap suc e))
