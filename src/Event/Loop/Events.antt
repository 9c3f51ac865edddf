-- ===== src/Event/Loop/Events.antt =====
-- One-shot events: what `handleEvent` does to them, the first time and later.
use cpptool_box.Base.{ℕ, true}
use cpptool_box.Event.Poller.{Poller, set_event}
use cpptool_box.Event.Loop.{Loop}

abbrev pub locked : Poller → ℕ → Poller
locked p id = set_event p id (record (p.event id) { lock_event = true })
