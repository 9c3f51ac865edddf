-- ===== src/Event.antt =====
-- gwcpp/event: descriptors, the poller and its loop, timers and queues. A chain of partial steps
-- stops at the first one that is not defined.
pub mod Fd
pub mod Poller
pub mod Loop
pub mod Timer
use cpptool_box.Base.{Option, none, some}

infixl 5 ◌>>=◌
abbrev pub ◌>>=◌ {ℓ κ} : {A : Type ℓ} {B : Type κ} → Option A → (A → Option B) → Option B
some a >>= f = f a
none >>= f = none
