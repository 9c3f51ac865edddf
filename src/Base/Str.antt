-- ===== src/Base/Str.antt =====
-- `std::string` as a list of bytes: the members that the code calls, with what they throw.
use Prim.Native.Nat.{ℕ, ◌+◌, ◌≤◌, ◌<◌}
use mathlib.Core.Path.{◌≡◌, refl}
use mathlib.Core.List.{List, [], ◌∷◌, ◌++◌}
use mathlib.Core.Option.{none, some}
use native.Mathlib.Omega.{arith}
use cpptool_box.Base.Tests.{ltb, ◌==◌, if◌then◌else◌}
use cpptool_box.Base.Lists.{
  length, get_elem?, get_elem?-some, take, drop, replicate, All, length-append, length-take,
  length-drop,
}
use cpptool_box.Base.Int.{ℤ, pos, negsuc}
use cpptool_box.Base.Faults.{out_of_range, length_error, undefined, Result, ok, err}

-- A byte is the pattern of a `char`.
abbrev pub IsBytes : List ℕ → Type 0
IsBytes = All (λ c. c < 256)

-- `s.at(i)`.
abbrev pub at : List ℕ → ℕ → Result ℕ
at s i = elim (get_elem? s i) [ none ↦ err out_of_range | some c ↦ ok c ]

-- `s.substr(pos, n)`.
abbrev pub substr : List ℕ → ℕ → ℕ → Result (List ℕ)
substr s p n = if ltb (length s) p then err out_of_range else ok (take n (drop p s))

-- `s.substr(pos)`: the default count, `npos`, cuts nothing off.
abbrev pub substr_from : List ℕ → ℕ → Result (List ℕ)
substr_from s p = if ltb (length s) p then err out_of_range else ok (drop p s)

-- `s.insert(pos, t)` at a position inside `s`; every call of it stands behind that test.
abbrev pub insert_at : ℕ → List ℕ → List ℕ → List ℕ
insert_at p t s = take p s ++ (t ++ drop p s)

-- The string that a `const char*` converts to: it ends before the first zero byte.
abbrev pub c_str : List ℕ → List ℕ
c_str [] = []
c_str (c ∷ s) = if c == 0 then [] else c ∷ c_str s

-- `std::string(p, n)` for a pointer to the bytes of `s` and an `int32_t` count.
abbrev pub string_of : List ℕ → ℤ → Result (List ℕ)
string_of s (pos n) = if ltb (length s) n then err undefined else ok (take n s)
string_of s (negsuc n) = err length_error

-- `std::string(n, c)` for an `int32_t` count.
abbrev pub string_fill : ℤ → ℕ → Result (List ℕ)
string_fill (pos n) c = ok (replicate n c)
string_fill (negsuc n) c = err length_error

pub at-some : (s : List ℕ) (i : ℕ) → i < length s → (c : ℕ) × (at s i ≡ ok c)
at-some s i h = let (c, e) = get_elem?-some i s h in (c, rw (e, at))

pub length-insert_at :
    (p : ℕ) (t s : List ℕ) → p ≤ length s → length (insert_at p t s) ≡ length s + length t
length-insert_at p t s h = omega (
  arith,
  length-append (take p s) (t ++ drop p s),
  length-append t (drop p s),
  length-take p s,
  length-drop p s,
)

-- A string without a zero byte survives the conversion.
pub c_str-eq : (s : List ℕ) → All (λ c. 0 < c) s → c_str s ≡ s
c_str-eq [] h = refl
c_str-eq (c ∷ s) h = ground (arith, c_str-eq s h.1)

pub c_str-zero : (s t : List ℕ) → All (λ c. 0 < c) s → c_str (s ++ (0 ∷ t)) ≡ s
c_str-zero [] t h = refl
c_str-zero (c ∷ s) t h = ground (arith, c_str-zero s t h.1)
