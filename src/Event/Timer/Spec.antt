-- ===== src/Event/Timer/Spec.antt =====
-- How a timer splits its durations, and what `stop` sets.
use cpptool_box.Base.{
  ℕ, ◌+◌, ◌*◌, ◌-◌, ◌<◌, ◌≤◌, ◌≡◌, refl, [], ◌∷◌, ◌++◌, true, false, some, pos, arith, inr, ltb_ℤ,
}
use cpptool_box.Event.Poller.{enable_reading, disable_reading}
use cpptool_box.Event.Poller.Valid.{IsValid}
use cpptool_box.Event.Poller.Updates.{Usable, with_mask-total}
use cpptool_box.Event.Timer.{
  Timer, from_now, from_now_in_time_spec, split_nanosec, start, stop, settime, nanosecs_per_second,
  nanos_in_mill,
}

-- A duration that is not negative is split without loss, into a value that timerfd_settime accepts.
pub split_nanosec-exact :
    (n : ℕ)
    → ((split_nanosec (pos n)).tv_sec * nanosecs_per_second + (split_nanosec (pos n)).tv_nsec ≡ n)
      × ((split_nanosec (pos n)).tv_nsec < nanosecs_per_second)
unfolding split_nanosec
split_nanosec-exact n = (omega arith, omega arith)

-- The time until a moment that has not passed is converted without loss, into a value that
-- timerfd_settime accepts.
pub time_spec-exact :
    (now timestamp : ℕ)
    → now ≤ timestamp
    → ((from_now_in_time_spec now timestamp).tv_sec * nanosecs_per_second
          + (from_now_in_time_spec now timestamp).tv_nsec
        ≡ (timestamp - now) * nanos_in_mill)
      × ((from_now_in_time_spec now timestamp).tv_nsec < nanosecs_per_second)
unfolding from_now_in_time_spec from_now
time_spec-exact now timestamp h = (ground arith, ground arith)

nonneg : (r : ℕ) → ltb_ℤ (pos r) (pos 0) ≡ false
nonneg r = ground arith

-- After a `start`, the `stop` of the timer succeeds, and hands timerfd_settime the value that `start`
-- handed it, so the timer is armed again and not stopped.
pub start-stop :
    (t : Timer) (r r' : ℕ)
    → IsValid t.poller
    → Usable t.poller t.event
    → (u : Timer) × (w : Timer) × (start (pos r) t ≡ some (true, u))
      × (stop (pos r') u ≡ some (true, w))
      × IsValid w.poller
      × (w.settimes ≡ (t.settimes ++ (t.timer_spec ∷ [])) ++ (t.timer_spec ∷ []))
unfolding start stop enable_reading disable_reading
start-stop t r r' v u =
    let (p, e, w, n, _, _, _) =
      with_mask-total t.poller t.event (record (t.poller.event t.event).events { reads = true }) v
        u in
    let (q, g, x, _, _, _, _) =
      with_mask-total p t.event (record (p.event t.event).events { reads = false }) w (inr n) in
    (
      settime (record t { poller = p }),
      settime (record (settime (record t { poller = p })) { poller = q }),
      rw (e, nonneg r) refl,
      rw (nonneg r', g) refl,
      x,
      refl,
    )
