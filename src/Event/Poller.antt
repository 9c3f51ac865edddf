-- ===== src/Event/Poller.antt =====
-- gwcpp/event/Poller.h, Poller.cpp and EpollFdEvent.cpp: the events of a loop, the map from descriptors
-- to events, and the calls of epoll_ctl. An event is named by its address, a number.
pub mod Valid
pub mod Updates
pub mod Fresh
pub mod Removal
pub mod Requests
use cpptool_box.Base.{
  ℕ, List, [], ◌∷◌, Option, none, some, Bool, true, false, not, ◌&&◌, ◌||◌, ◌==◌, if◌then◌else◌, ℤ,
  eq_ℤ,
}

-- `events_`: it only ever holds kNoneEvent, kReadEvent (EPOLLIN | EPOLLPRI), kWriteEvent (EPOLLOUT)
-- or the union of the last two.
pub record Mask : Type 0 where
  pub reads : Bool
  pub writes : Bool

-- `index_`: kNew is -1, kAdded is 1, kDeleted is 2, and no other value is ever set.
pub data Index : Type 0 where
  is_new is_added is_deleted : Index

-- The bits of `revents_` that are tested.
pub record Revents : Type 0 where
  pub epollin : Bool
  pub epollpri : Bool
  pub epollout : Bool
  pub epollerr : Bool
  pub epollhup : Bool
  pub epollrdhup : Bool

pub data Mode : Type 0 where
  persist oneshot : Mode

pub record FdEvent : Type 0 where
  pub fd : ℤ
  pub added_to_loop : Bool
  pub is_stop_after_trigger : Bool
  pub revents : Revents
  pub index : Index
  pub events : Mask
  pub lock_event : Bool

-- A call of epoll_ctl: the operation, the descriptor and the mask.
pub data Ctl : Type 0 where
  ctl_add ctl_mod ctl_del : ℤ → Mask → Ctl

-- `ctl` holds the calls of epoll_ctl, the latest first.
pub record Poller : Type 0 where
  pub fd_event_maps : ℤ → Option ℕ
  pub event : ℕ → FdEvent
  pub ctl : List Ctl

abbrev pub no_revents : Revents
no_revents = record {
  epollin = false;
  epollpri = false;
  epollout = false;
  epollerr = false;
  epollhup = false;
  epollrdhup = false;
}

abbrev pub none_event : Mask
none_event = record { reads = false; writes = false }

-- The constructor of EpollFdEvent, with the descriptor and mode that `init` sets.
unfoldable pub new_event : ℤ → Mode → FdEvent
new_event fd mode = record {
  fd = fd;
  added_to_loop = false;
  is_stop_after_trigger = elim mode [ persist ↦ false | oneshot ↦ true ];
  revents = no_revents;
  index = is_new;
  events = none_event;
  lock_event = false;
}

abbrev pub is_none_event : FdEvent → Bool
is_none_event e = not (e.events.reads || e.events.writes)

unfoldable pub is_writing : FdEvent → Bool
is_writing e = e.events.writes

unfoldable pub is_reading : FdEvent → Bool
is_reading e = e.events.reads

abbrev pub set_event : Poller → ℕ → FdEvent → Poller
set_event p id e = record p { event = λ j. if id == j then e else p.event j }

abbrev pub set_map : Poller → ℤ → Option ℕ → Poller
set_map p fd o = record p { fd_event_maps = λ k. if eq_ℤ fd k then o else p.fd_event_maps k }

-- `assert(fdEventMaps_.find(fd) == end())` and `assert(fdEventMaps_[fd] == fdEvent)`.
abbrev pub is_absent : Option ℕ → Bool
is_absent none = true
is_absent (some _) = false

abbrev pub is_entry : ℕ → Option ℕ → Bool
is_entry id none = false
is_entry id (some j) = id == j

-- A failed assertion is `none`.
abbrev pub asserting : Bool → Poller → Option Poller
asserting b p = if b then some p else none

-- `update(int, EpollFdEvent*)`: what epoll_ctl returns is only logged.
abbrev pub update : Poller → Ctl → Poller
update p c = record p { ctl = c ∷ p.ctl }

-- The branch of `updateEvent` for an event that epoll does not watch.
abbrev pub add_event : Poller → ℕ → FdEvent → Poller
add_event p id e = update (set_event p id (record e { index = is_added })) (ctl_add e.fd e.events)

abbrev pub update_by_index : Index → Poller → ℕ → FdEvent → Option Poller
update_by_index is_new p id e =
    asserting (is_absent (p.fd_event_maps e.fd)) (add_event (set_map p e.fd (some id)) id e)
update_by_index is_deleted p id e =
    asserting (is_entry id (p.fd_event_maps e.fd)) (add_event p id e)
update_by_index is_added p id e = asserting (is_entry id (p.fd_event_maps e.fd)) (
    if is_none_event e
    then set_event (update p (ctl_del e.fd e.events)) id (record e { index = is_deleted })
    else update p (ctl_mod e.fd e.events))

-- `Poller::updateEvent`.
unfoldable pub update_event : Poller → ℕ → Option Poller
update_event p id = update_by_index (p.event id).index p id (p.event id)

abbrev pub remove_by_index : Index → Poller → ℕ → FdEvent → Option Poller
remove_by_index is_new p id e = none
remove_by_index is_added p id e = some (
    set_event (update (set_map p e.fd none) (ctl_del e.fd e.events)) id
      (record e { index = is_new }))
remove_by_index is_deleted p id e =
    some (set_event (set_map p e.fd none) id (record e { index = is_new }))

-- `Poller::removeEvent`.
unfoldable pub remove_event : Poller → ℕ → Option Poller
remove_event p id =
    if is_entry id (p.fd_event_maps (p.event id).fd) && is_none_event (p.event id)
    then remove_by_index (p.event id).index p id (p.event id)
    else none

-- `Poller::hasEvent`.
unfoldable pub has_event : Poller → ℕ → Bool
has_event p id = is_entry id (p.fd_event_maps (p.event id).fd)

-- `EpollFdEvent::update`, behind a change of `events_`.
abbrev pub with_mask : Poller → ℕ → Mask → Option Poller
with_mask p id m =
    update_event (set_event p id (record (p.event id) { events = m; added_to_loop = true })) id

unfoldable pub enable_reading : Poller → ℕ → Option Poller
enable_reading p id = with_mask p id (record (p.event id).events { reads = true })

unfoldable pub enable_writing : Poller → ℕ → Option Poller
enable_writing p id = with_mask p id (record (p.event id).events { writes = true })

unfoldable pub disable_reading : Poller → ℕ → Option Poller
disable_reading p id = with_mask p id (record (p.event id).events { reads = false })

unfoldable pub disable_writing : Poller → ℕ → Option Poller
disable_writing p id = with_mask p id (record (p.event id).events { writes = false })

unfoldable pub disable_all : Poller → ℕ → Option Poller
disable_all p id = with_mask p id none_event

-- `EpollFdEvent::remove`.
unfoldable pub remove : Poller → ℕ → Option Poller
remove p id =
    if is_none_event (p.event id)
    then remove_event (set_event p id (record (p.event id) { added_to_loop = false })) id
    else none
