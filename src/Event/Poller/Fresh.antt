-- ===== src/Event/Poller/Fresh.antt =====
-- An event that is allocated for a descriptor (gwcpp/event/EpollFdEvent.cpp, the constructor and init).
use cpptool_box.Base.{
  ℕ, ◌≡◌, ◌≢◌, refl, some, none, ◌==◌, arith, ℤ, ==_iff, ==_refl, Bool-cases, inl, inr,
}
use cpptool_box.Event.Poller.{Poller, Mode, new_event, set_event}
use cpptool_box.Event.Poller.Valid.{IsValid}
use cpptool_box.Event.Poller.Updates.{Usable}

-- No entry of the map names the event.
abbrev pub Unused : Poller → ℕ → Type 0
Unused p id = (k : ℤ) → p.fd_event_maps k ≢ some id

pub fresh-IsValid :
    (p : Poller) (id : ℕ) (fd : ℤ) (mode : Mode)
    → IsValid p
    → Unused p id
    → IsValid (set_event p id (new_event fd mode))
unfolding new_event
fresh-IsValid p id fd mode v u = record {
  entry = λ k j h. ground (arith, v.entry k j h, u k, h);
  absent = v.absent;
  agrees = λ j. elim (Bool-cases (id == j)) [
    | inl e ↦ rw (e, ← (==_iff id j).0 e) (u fd, tt)
    | inr e ↦ rw e (v.agrees j)
  ];
  accepted = v.accepted;
}

pub fresh-Usable :
    (p : Poller) (id : ℕ) (fd : ℤ) (mode : Mode)
    → p.fd_event_maps fd ≡ none
    → Usable (set_event p id (new_event fd mode)) id
unfolding new_event
fresh-Usable p id fd mode h = rw (==_refl id) (inl (refl, h))
