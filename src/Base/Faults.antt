-- ===== src/Base/Faults.antt =====
-- What a C++ call may end in besides a value, and the chaining of such calls.

-- `std::out_of_range` and `std::length_error` as thrown by `std::string`, and a step that the
-- language leaves undefined, and an assertion that does not hold.
pub data Fault : Type 0 where
  out_of_range length_error undefined assertion : Fault

pub data Result {ℓ} (A : Type ℓ) : Type ℓ where
  ok : A → Result A
  err : Fault → Result A

infixl 5 ◌>>=◌
abbrev pub ◌>>=◌ {ℓ κ} : {A : Type ℓ} {B : Type κ} → Result A → (A → Result B) → Result B
ok a >>= f = f a
err e >>= f = err e

abbrev pub map_ok {ℓ κ} : {A : Type ℓ} {B : Type κ} → (A → B) → Result A → Result B
map_ok f (ok a) = ok (f a)
map_ok f (err e) = err e
