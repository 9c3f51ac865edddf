-- ===== src/Event/Timer.antt =====
-- gwcpp/event/Timer.cpp: a timer on a timerfd. What the system calls return is an argument.
pub mod Spec
use cpptool_box.Base.{
  ℕ, ◌*◌, ◌-◌, ◌/◌, ◌%◌, ◌^◌, List, [], ◌∷◌, ◌++◌, Bool, true, false, Option, none, some,
  if◌then◌else◌, leb, ◌==◌, ℤ, pos, negsuc, ltb_ℤ, leb_ℤ, eq_ℤ, to_size,
}
use cpptool_box.Event.{◌>>=◌}
use cpptool_box.Event.Poller.{
  Poller, Mode, persist, oneshot, FdEvent, new_event, set_event, enable_reading, disable_reading,
}

abbrev pub nanosecs_per_second : ℕ
nanosecs_per_second = 1000000000

abbrev pub mills_in_second : ℕ
mills_in_second = 1000

abbrev pub nanos_in_mill : ℕ
nanos_in_mill = 1000 * 1000

-- `struct timespec` and `struct itimerspec`.
pub record Timespec : Type 0 where
  pub tv_sec : ℕ
  pub tv_nsec : ℕ

pub record Itimerspec : Type 0 where
  pub it_value : Timespec
  pub it_interval : Timespec

-- `event` names the event in `Timer_`, and `settimes` holds the values that timerfd_settime was called
-- with, in order; `calls` counts the calls of the callback.
pub record Timer : Type 0 where
  pub timer_fd : ℤ
  pub timer_spec : Itimerspec
  pub event : ℕ
  pub timer_callback : Bool
  pub poller : Poller
  pub settimes : List Itimerspec
  pub calls : ℕ

-- `fromNow`, on `uint64_t`: the time until `timestamp`, in milliseconds.
unfoldable pub from_now : ℕ → ℕ → ℕ
from_now now timestamp = if leb now timestamp then timestamp - now else 0

unfoldable pub from_now_in_time_spec : ℕ → ℕ → Timespec
from_now_in_time_spec now timestamp =
    let from_now_mills = from_now now timestamp in
    record {
      tv_sec = from_now_mills / mills_in_second;
      tv_nsec = from_now_mills % mills_in_second * nanos_in_mill;
    }

-- The count of a duration, divided as the unsigned number that the constant makes of it.
unfoldable pub split_nanosec : ℤ → Timespec
split_nanosec n = record {
  tv_sec = to_size n / nanosecs_per_second;
  tv_nsec = to_size n % nanosecs_per_second;
}

abbrev pub mode_of : ℤ → Mode
mode_of repeat = if eq_ℤ repeat (pos 0) then oneshot else persist

-- `Timer_->init(fd, mode)`.
abbrev pub init_event : FdEvent → ℤ → Mode → FdEvent
init_event e fd persist = record e { fd = fd }
init_event e fd oneshot = record e { fd = fd; is_stop_after_trigger = true }

-- `init`, with the descriptor that timerfd_create returns.
unfoldable pub init : ℤ → ℤ → ℤ → Timer → Bool × Timer
init fd first repeat t = if ltb_ℤ fd (pos 0) then (false, record t { timer_fd = fd }) else (
  true,
  record t {
    timer_fd = fd;
    timer_spec = record { it_value = split_nanosec first; it_interval = split_nanosec repeat };
    poller = set_event t.poller t.event (init_event (t.poller.event t.event) fd (mode_of repeat));
  },
)

-- timerfd_settime with `&timerSpec_`.
abbrev pub settime : Timer → Timer
settime t = record t { settimes = t.settimes ++ (t.timer_spec ∷ []) }

-- `start`, with what timerfd_settime returns.
unfoldable pub start : ℤ → Timer → Option (Bool × Timer)
start ret t = enable_reading t.poller t.event >>= λ p.
    some (if ltb_ℤ ret (pos 0) then false else true, settime (record t { poller = p }))

-- `stop`: `ts`, the value that would disarm the timer, is not used.
unfoldable pub stop : ℤ → Timer → Option (Bool × Timer)
stop ret t =
    if ltb_ℤ ret (pos 0)
    then some (false, settime t)
    else disable_reading t.poller t.event >>= λ p. some (true, settime (record t { poller = p }))

-- `onTimer`, with what `read` returns.
unfoldable pub on_timer : ℤ → Timer → Timer
on_timer len t =
    if leb_ℤ len (pos 0)
    then t
    else (if t.timer_callback then record t { calls = ℕ.suc t.calls } else t)
