-- ===== src/Tests/Pools.antt =====
-- Tests of the thread pool of gwcpp/event.
use cpptool_box.Base.{
  ℕ, ◌+◌, ◌≡◌, ◌≢◌, refl, List, [], ◌∷◌, ◌++◌, some, true, false, get_elem?, arith, All,
}
use cpptool_box.Pool.{
  ThreadPool, Worker, head, waiting, unlocking, locking, worker_step, serving, notified, System,
  start, Event, steps, puts, notifies_nobody, step, run,
}
use cpptool_box.Base.{count, total}
use cpptool_box.Pool.Order.{holds, locks, bit, run-order}
use cpptool_box.Pool.Sleep.{IsQuiet, stopping, missing, shutdown_hangs, submit_lost}
use cpptool_box.Pool.Drain.{alone, rounds, alone-drains, run-progress}

-- Two tasks, of which the first worker of two has taken one out.
abbrev busy : List Event
busy = puts 7 ∷ notifies_nobody ∷ puts 8 ∷ steps 0 ∷ steps 0 ∷ steps 0 ∷ steps 0 ∷ steps 1 ∷ []

abbrev busy_state : System
busy_state = record {
  pool = record {
    shutdown = false;
    queue = 8 ∷ [];
    locked = true;
    submitted = 7 ∷ 8 ∷ [];
    taken = 7 ∷ [];
    ran = [];
  };
  workers = unlocking (some 7) ∷ locking ∷ [];
  owed = 1;
  stage = serving;
}

busy-reached : run busy (start 2) ≡ some busy_state
unfolding run step worker_step
busy-reached = refl

run-order_example :
    (busy_state.pool.taken ++ busy_state.pool.queue ≡ busy_state.pool.submitted)
    × ((a : ℕ)
        → count a busy_state.pool.ran
            + total (holds a) busy_state.workers
            + count a busy_state.pool.queue
          ≡ count a busy_state.pool.submitted)
    × (total locks busy_state.workers ≡ bit busy_state.pool.locked)
run-order_example = run-order 2 busy busy_state busy-reached

locking-ne-waiting : locking ≢ waiting
locking-ne-waiting e = ground (arith, e)

locking-ne-finished : locking ≢ Worker.finished
locking-ne-finished e = ground (arith, e)

run-progress_example : (j : ℕ) × ((t : System) × (step (steps j) busy_state ≡ some t))
run-progress_example =
    run-progress 2 busy busy_state 1 locking busy-reached refl locking-ne-waiting
      locking-ne-finished

shutdown_hangs_example :
    (s : System) × (run stopping (start 2) ≡ some s)
    × ((es : List Event) (t : System)
        → All (IsQuiet notified) es
        → run es s ≡ some t
        → t.stage ≡ notified)
shutdown_hangs_example = shutdown_hangs 1

submit_lost_example :
    (s : System) × (run (missing 7) (start 1) ≡ some s)
    × (s.pool.queue ≡ 7 ∷ [])
    × ((es : List Event) (t : System)
        → All (IsQuiet serving) es
        → run es s ≡ some t
        → (t.pool.queue ≡ 7 ∷ []) × (t.pool.ran ≡ []) × (get_elem? t.workers 0 ≡ some waiting))
submit_lost_example = submit_lost 7

abbrev filled : ThreadPool
filled = record {
  shutdown = false;
  queue = 7 ∷ 8 ∷ [];
  locked = false;
  submitted = 7 ∷ 8 ∷ [];
  taken = [];
  ran = [];
}

alone-drains_example :
    alone (rounds (7 ∷ 8 ∷ [])) filled head
    ≡ some (record filled { queue = []; taken = 7 ∷ 8 ∷ []; ran = 7 ∷ 8 ∷ [] }, head)
alone-drains_example = alone-drains filled refl refl
