-- ===== src/Tests.antt =====
-- Concrete states that the tests run on: pollers with and without an event, connections and devices.
pub mod Buffers
pub mod Descriptors
pub mod Logs
pub mod Loops
pub mod Connections
pub mod Devices
pub mod Clients
pub mod Strings
pub mod Files
pub mod Pools
pub mod Sockets
pub mod Streams
use cpptool_box.Base.{
  ℕ, ◌+◌, ◌≡◌, ◌≢◌, refl, List, [], ◌∷◌, Option, none, some, true, false, ◌==◌, if◌then◌else◌,
  arith, ℤ, pos, eq_ℤ, eq_ℤ_iff, ==_iff, Bool-cases, inl, inr,
}
use cpptool_box.Event.Poller.{
  Poller, FdEvent, Mask, is_added, new_event, persist, oneshot, ctl_add, no_revents,
}
use cpptool_box.Event.Poller.Valid.{IsValid, interest, Accepted}
use cpptool_box.Event.Poller.Fresh.{Unused}
use cpptool_box.Event.Poller.Requests.{Distinct}

-- Nothing is registered, and event `j` is new with descriptor `j + 3`.
abbrev pub idle_poller : Poller
idle_poller = record {
  fd_event_maps = λ k. none;
  event = λ j. new_event (pos (j + 3)) persist;
  ctl = [];
}

pub idle-IsValid : IsValid idle_poller
unfolding new_event interest Accepted
idle-IsValid = record {
  entry = λ k j h. ground (arith, h);
  absent = λ k h. refl;
  agrees = λ j. ((λ h. ground (arith, h)), tt);
  accepted = tt;
}

pub idle-Distinct : Distinct idle_poller
unfolding new_event
idle-Distinct i j h = ground (arith, h)

pub idle-Unused : (id : ℕ) → Unused idle_poller id
idle-Unused id k h = ground (arith, h)

-- Event 0 watches descriptor 5 with the mask `m`; the other events are new.
abbrev pub watching_event : Mask → FdEvent
watching_event m = record (new_event (pos 5) oneshot) {
  index = is_added;
  events = m;
  added_to_loop = true;
}

abbrev pub watching_poller : Mask → Poller
watching_poller m = record {
  fd_event_maps = λ k. if eq_ℤ (pos 5) k then some 0 else none;
  event = λ j. if 0 == j then watching_event m else new_event (pos 7) persist;
  ctl = ctl_add (pos 5) m ∷ [];
}

pub watching-IsValid : (m : Mask) → IsValid (watching_poller m)
unfolding new_event interest Accepted
watching-IsValid m = record {
  entry = λ k j h. ground (arith, h, eq_ℤ_iff (pos 5) k, ==_iff 0 j);
  absent = λ k h. ground (arith, h, eq_ℤ_iff (pos 5) k);
  agrees = λ j. elim (Bool-cases (0 == j)) [
    | inl e ↦ rw (e, ← (==_iff 0 j).0 e) (refl, refl)
    | inr e ↦ rw e ((λ h. ground (arith, h)), tt)
  ];
  accepted = (refl, tt);
}
