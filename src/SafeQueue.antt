-- ===== src/SafeQueue.antt =====
-- gwcpp/base/SafeQueue.h: each member holds the queue's own mutex from its first line to its last,
-- so that a call is one step for all threads.
use cpptool_box.Base.{
  List, [], ◌∷◌, ◌++◌, Bool, true, false, Option, none, some, ℤ, to_int32, pos, length,
}

module _ {ℓ} {A : Type ℓ} where
  abbrev pub empty : List A → Bool
  empty [] = true
  empty (t ∷ q) = false

  -- The `size_t` of the queue is returned as an int.
  abbrev pub size : List A → ℤ
  size q = to_int32 (pos (length q))

  abbrev pub enqueue : A → List A → List A
  enqueue t q = q ++ (t ∷ [])

  -- None where the call returns false, and leaves `t` as it is.
  abbrev pub dequeue : List A → Option (A × List A)
  dequeue [] = none
  dequeue (t ∷ q) = some (t, q)
