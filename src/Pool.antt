-- ===== src/Pool.antt =====
-- gwcpp/event/ThreadPool.h: the workers and the callers of the pool, interleaved. A task is named by
-- a number.
pub mod Order
pub mod Sleep
pub mod Drain
use cpptool_box.Base.{
  ℕ, zero, suc, List, [], ◌∷◌, ◌++◌, Bool, true, false, Option, none, some, get_elem?, set,
  replicate, if◌then◌else◌, map,
}
use cpptool_box.SafeQueue.{empty, enqueue, dequeue}

-- What the threads share. `locked` is `m_conditional_mutex`; the three logs keep the tasks that were
-- put in, taken out and called, and no code reads them.
pub record ThreadPool : Type 0 where
  pub shutdown : Bool
  pub queue : List ℕ
  pub locked : Bool
  pub submitted : List ℕ
  pub taken : List ℕ
  pub ran : List ℕ

-- Where a worker stands in `operator()`.
pub data Worker : Type 0 where
  head : Worker  -- the test of the `while`
  locking : Worker  -- the constructor of `lock`
  checking : Worker  -- `m_queue.empty()`
  sleeping : Worker  -- before `wait`, which gives the mutex back
  waiting : Worker  -- inside `wait`
  waking : Worker  -- inside `wait`, before the mutex is taken again
  dequeuing : Worker  -- `m_queue.dequeue(func)`
  unlocking : Option ℕ → Worker  -- the destructor of `lock`, with what was taken out
  calling : ℕ → Worker  -- `func()`
  finished : Worker

abbrev pub taken_out : ThreadPool → Option (ℕ × List ℕ) → ThreadPool × Worker
taken_out m none = (m, unlocking none)
taken_out m (some (t, q)) =
    (record m { queue = q; taken = m.taken ++ (t ∷ []) }, unlocking (some t))

-- `if (dequeued)`.
abbrev pub called : Option ℕ → Worker
called none = head
called (some t) = calling t

-- One step of a worker; none where it has to wait, or has returned.
unfoldable pub worker_step : ThreadPool → Worker → Option (ThreadPool × Worker)
worker_step m head = some (m, if m.shutdown then finished else locking)
worker_step m locking = if m.locked then none else some (record m { locked = true }, checking)
worker_step m checking = some (m, if empty m.queue then sleeping else dequeuing)
worker_step m sleeping = some (record m { locked = false }, waiting)
worker_step m waiting = none
worker_step m waking = if m.locked then none else some (record m { locked = true }, dequeuing)
worker_step m dequeuing = some (taken_out m (dequeue m.queue))
worker_step m (unlocking o) = some (record m { locked = false }, called o)
worker_step m (calling t) = some (record m { ran = m.ran ++ (t ∷ []) }, head)
worker_step m finished = none

-- How far a call of `shutdown` has come.
pub data Stage : Type 0 where
  serving flagged notified joined : Stage

-- `owed` counts the calls of `submit` that have put their task in and not yet called `notify_one`.
pub record System : Type 0 where
  pub pool : ThreadPool
  pub workers : List Worker
  pub owed : ℕ
  pub stage : Stage

-- The constructor and `init`.
abbrev pub start : ℕ → System
start n_threads = record {
  pool = record {
    shutdown = false;
    queue = [];
    locked = false;
    submitted = [];
    taken = [];
    ran = [];
  };
  workers = replicate n_threads head;
  owed = 0;
  stage = serving;
}

abbrev pub wake : Worker → Worker
wake waiting = waking
wake w = w

abbrev pub is_waiting : Worker → Bool
is_waiting waiting = true
is_waiting w = false

abbrev pub any_waiting : List Worker → Bool
any_waiting [] = false
any_waiting (w ∷ ws) = if is_waiting w then true else any_waiting ws

abbrev pub all_finished : List Worker → Bool
all_finished [] = true
all_finished (finished ∷ ws) = all_finished ws
all_finished (w ∷ ws) = false

-- The steps of the threads. Which worker `notify_one` wakes is left open, and a wait may end by
-- itself, as a condition variable allows.
pub data Event : Type 0 where
  steps : ℕ → Event  -- a worker
  puts : ℕ → Event  -- `submit`, up to the task in the queue
  notifies : ℕ → Event  -- its `notify_one`, where it wakes a worker
  notifies_nobody : Event
  wakes : ℕ → Event  -- a wait that ends by itself
  flags : Event  -- `shutdown`: the flag
  notifies_all : Event
  joins : Event  -- its loop of `join`, where it ends

abbrev pub stepped : System → ℕ → Option (ThreadPool × Worker) → Option System
stepped s i none = none
stepped s i (some (m, w)) = some (record s { pool = m; workers = set s.workers i w })

abbrev pub woken : System → ℕ → Option Worker → Option System
woken s i (some waiting) = some (record s { workers = set s.workers i waking })
woken s i o = none

abbrev pub paid : ℕ → System → Option System
paid zero s = none
paid (suc k) s = some (record s { owed = k })

-- The parts of `shutdown`, each of which follows the one before.
abbrev pub flag_at : Stage → System → Option System
flag_at serving s = some (record s { pool = record s.pool { shutdown = true }; stage = flagged })
flag_at c s = none

abbrev pub notify_at : Stage → System → Option System
notify_at flagged s = some (record s { workers = map wake s.workers; stage = notified })
notify_at c s = none

abbrev pub join_at : Stage → System → Option System
join_at notified s = if all_finished s.workers then some (record s { stage = joined }) else none
join_at c s = none

unfoldable pub step : Event → System → Option System
step (steps i) s = elim (get_elem? s.workers i) [
  | none ↦ none
  | some w ↦ stepped s i (worker_step s.pool w)
]
step (puts t) s = some (record s {
  pool = record s.pool { queue = enqueue t s.pool.queue; submitted = s.pool.submitted ++ (t ∷ []) };
  owed = suc s.owed;
})
step (notifies i) s = elim (paid s.owed s) [
  | none ↦ none
  | some r ↦ woken r i (get_elem? r.workers i)
]
step notifies_nobody s = if any_waiting s.workers then none else paid s.owed s
step (wakes i) s = woken s i (get_elem? s.workers i)
step flags s = flag_at s.stage s
step notifies_all s = notify_at s.stage s
step joins s = join_at s.stage s

unfoldable pub run : List Event → System → Option System
run [] s = some s
run (e ∷ es) s = elim (step e s) [ none ↦ none | some t ↦ run es t ]
