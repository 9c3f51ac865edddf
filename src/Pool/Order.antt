-- ===== src/Pool/Order.antt =====
-- No task is lost, repeated or overtaken, and one thread at most has the mutex.
use cpptool_box.Base.{
  ℕ, zero, suc, ◌+◌, ◌≤◌, ◌≡◌, refl, sym, ◌∙◌, ap, List, [], ◌∷◌, ◌++◌, Option, none, some, arith,
  get_elem?, if◌then◌else◌, ◌==◌, Bool, true, false, some-injective, Option-cases, inl, inr,
  Bool-cases,
}
use mathlib.Core.List.{append_assoc}
use cpptool_box.SafeQueue.{dequeue}
use cpptool_box.Pool.{
  ThreadPool, Worker, head, checking, sleeping, waiting, waking, dequeuing, unlocking, calling,
  worker_step, System, start, Event, steps, puts, notifies, notifies_nobody, wakes, flags,
  notifies_all, joins, step, run, wake, taken_out, stepped, woken, paid, Stage, serving, flagged,
  notified, joined, any_waiting, all_finished, flag_at, notify_at, join_at,
}
use cpptool_box.Base.{count, count-append, total, total-set, total-le, total-map, total-replicate}

-- A task that a worker has taken out and not yet called.
abbrev pub holds : ℕ → Worker → ℕ
holds a (unlocking (some t)) = if t == a then 1 else 0
holds a (calling t) = if t == a then 1 else 0
holds a w = 0

abbrev pub locks : Worker → ℕ
locks checking = 1
locks sleeping = 1
locks dequeuing = 1
locks (unlocking o) = 1
locks w = 0

abbrev pub bit : Bool → ℕ
bit true = 1
bit false = 0

-- The tasks taken out and those in the queue are the ones put in, in order; each one that is taken
-- out was called or is held by a worker; the mutex is held by the workers that stand inside it.
pub record IsSound (s : System) : Type 0 where
  pub order : s.pool.taken ++ s.pool.queue ≡ s.pool.submitted
  pub calls : (a : ℕ) → count a s.pool.ran + total (holds a) s.workers ≡ count a s.pool.taken
  pub mutex : total locks s.workers ≡ bit s.pool.locked

-- What a step of one worker keeps.
record Keeps (m : ThreadPool) (w : Worker) (m' : ThreadPool) (w' : Worker) : Type 0 where
  pub order : m.taken ++ m.queue ≡ m.submitted → m'.taken ++ m'.queue ≡ m'.submitted
  pub calls :
      (a : ℕ)
      → count a m'.ran + holds a w' + count a m.taken ≡ count a m.ran + holds a w + count a m'.taken
  pub mutex : locks w ≤ bit m.locked → locks w' + bit m.locked ≡ locks w + bit m'.locked

took : ThreadPool → ℕ → List ℕ → ThreadPool
took m t q = record m { queue = q; taken = m.taken ++ (t ∷ []) }

took-Keeps :
    (m : ThreadPool) (t : ℕ) (q : List ℕ)
    → m.queue ≡ t ∷ q
    → Keeps m dequeuing (took m t q) (unlocking (some t))
unfolding took
took-Keeps m t q e = record {
  order = λ o. append_assoc m.taken (t ∷ []) q ∙ (ap (λ r. m.taken ++ r) (sym e) ∙ o);
  calls = λ a. omega (arith, count-append a m.taken (t ∷ []));
  mutex = λ l. omega arith;
}

dequeue-Keeps :
    (m : ThreadPool) (q : List ℕ) (m' : ThreadPool) (w' : Worker)
    → m.queue ≡ q
    → taken_out m (dequeue q) ≡ (m', w')
    → Keeps m dequeuing m' w'
unfolding took
dequeue-Keeps m [] m' w' e h = record {
  order = ground (arith, h);
  calls = λ a. ground (arith, h);
  mutex = ground (arith, h);
}
dequeue-Keeps m (t ∷ q) m' w' e h = rw (← ap (λ r. r.0) h, ← ap (λ r. r.1) h) (took-Keeps m t q e)

worker_step-Keeps :
    (m : ThreadPool) (w : Worker) (m' : ThreadPool) (w' : Worker)
    → worker_step m w ≡ some (m', w')
    → Keeps m w m' w'
unfolding worker_step
worker_step-Keeps m (calling t) m' w' h = record {
  order = ground (arith, h);
  calls = λ a. ground (arith, h, count-append a m.ran (t ∷ []));
  mutex = ground (arith, h);
}
worker_step-Keeps m dequeuing m' w' h = dequeue-Keeps m m.queue m' w' refl (some-injective h)
worker_step-Keeps m (unlocking none) m' w' h = record {
  order = ground (arith, h);
  calls = λ a. ground (arith, h);
  mutex = ground (arith, h);
}
worker_step-Keeps m (unlocking (some t)) m' w' h = record {
  order = ground (arith, h);
  calls = λ a. ground (arith, h);
  mutex = ground (arith, h);
}
worker_step-Keeps m w m' w' h = record {
  order = ground (arith, h);
  calls = λ a. ground (arith, h);
  mutex = ground (arith, h);
}

stepped-IsSound :
    (s t : System) (i : ℕ) (w : Worker) (o : Option (ThreadPool × Worker))
    → get_elem? s.workers i ≡ some w
    → worker_step s.pool w ≡ o
    → stepped s i o ≡ some t
    → IsSound s
    → IsSound t
stepped-IsSound s t i w none g e h v = ground (arith, h)
stepped-IsSound s t i w (some (m, w')) g e h v = rw (← some-injective h) (record {
  order = k.order v.order;
  calls = λ a. omega (arith, k.calls a, v.calls a, total-set (holds a) s.workers i w w' g);
  mutex = omega (
    arith,
    k.mutex (omega (arith, total-le locks s.workers i w g, v.mutex)),
    v.mutex,
    total-set locks s.workers i w w' g,
  );
})
  where
    k : Keeps s.pool w m w'
    k = worker_step-Keeps s.pool w m w' e

woken-IsSound :
    (s t : System) (i : ℕ) (o : Option Worker)
    → get_elem? s.workers i ≡ o
    → woken s i o ≡ some t
    → IsSound s
    → IsSound t
woken-IsSound s t i (some waiting) g h v = rw (← some-injective h) (record {
  order = v.order;
  calls = λ a. omega (arith, v.calls a, total-set (holds a) s.workers i waiting waking g);
  mutex = omega (arith, v.mutex, total-set locks s.workers i waiting waking g);
})
woken-IsSound s t i o g h v = ground (arith, h)

paid-IsSound : (k : ℕ) (s t : System) → paid k s ≡ some t → IsSound s → IsSound t
paid-IsSound zero s t h v = ground (arith, h)
paid-IsSound (suc k) s t h v =
    rw (← some-injective h) (record { order = v.order; calls = v.calls; mutex = v.mutex })

flags-IsSound : (c : Stage) (s t : System) → flag_at c s ≡ some t → IsSound s → IsSound t
flags-IsSound serving s t h v =
    rw (← some-injective h) (record { order = v.order; calls = v.calls; mutex = v.mutex })
flags-IsSound c s t h v = ground (arith, h)

joined-IsSound :
    (b : Bool) (s t : System)
    → (if b then some (record s { stage = joined }) else none) ≡ some t
    → IsSound s
    → IsSound t
joined-IsSound true s t h v =
    rw (← some-injective h) (record { order = v.order; calls = v.calls; mutex = v.mutex })
joined-IsSound false s t h v = ground (arith, h)

joins-IsSound : (c : Stage) (s t : System) → join_at c s ≡ some t → IsSound s → IsSound t
joins-IsSound notified s t h v = joined-IsSound (all_finished s.workers) s t h v
joins-IsSound c s t h v = ground (arith, h)

holds-wake : (a : ℕ) (w : Worker) → holds a (wake w) ≡ holds a w
holds-wake a waiting = refl
holds-wake a w = refl

locks-wake : (w : Worker) → locks (wake w) ≡ locks w
locks-wake waiting = refl
locks-wake w = refl

notifies_all-IsSound : (c : Stage) (s t : System) → notify_at c s ≡ some t → IsSound s → IsSound t
notifies_all-IsSound flagged s t h v = rw (← some-injective h) (record {
  order = v.order;
  calls = λ a. omega (arith, v.calls a, total-map (holds a) wake (holds-wake a) s.workers);
  mutex = omega (arith, v.mutex, total-map locks wake locks-wake s.workers);
})
notifies_all-IsSound c s t h v = ground (arith, h)

step-IsSound : (e : Event) (s t : System) → step e s ≡ some t → IsSound s → IsSound t
unfolding step
step-IsSound (steps i) s t h v = elim (Option-cases (get_elem? s.workers i)) [
  | inl n ↦ absurd (ground (arith, h, n))
  | inr (w, g) ↦
      stepped-IsSound s t i w (worker_step s.pool w) g refl (sym (rw (step, g) refl) ∙ h) v
]
step-IsSound (puts a) s t h v = rw (← some-injective h) (record {
  order = sym (append_assoc s.pool.taken s.pool.queue (a ∷ [])) ∙ ap (λ r. r ++ (a ∷ [])) v.order;
  calls = v.calls;
  mutex = v.mutex;
})
step-IsSound (notifies i) s t h v = elim (Option-cases (paid s.owed s)) [
  | inl n ↦ absurd (ground (arith, h, n))
  | inr (r, p) ↦
      woken-IsSound r t i (get_elem? r.workers i) refl (sym (rw (step, p) refl) ∙ h)
        (paid-IsSound s.owed s r p v)
]
step-IsSound notifies_nobody s t h v = elim (Bool-cases (any_waiting s.workers)) [
  | inl b ↦ absurd (ground (arith, h, b))
  | inr b ↦ paid-IsSound s.owed s t (sym (rw (step, b) refl) ∙ h) v
]
step-IsSound (wakes i) s t h v = woken-IsSound s t i (get_elem? s.workers i) refl h v
step-IsSound flags s t h v = flags-IsSound s.stage s t h v
step-IsSound notifies_all s t h v = notifies_all-IsSound s.stage s t h v
step-IsSound joins s t h v = joins-IsSound s.stage s t h v

start-IsSound : (n : ℕ) → IsSound (start n)
start-IsSound n = record {
  order = refl;
  calls = λ a. omega (arith, total-replicate (holds a) n head refl);
  mutex = omega (arith, total-replicate locks n head refl);
}

run-IsSound : (es : List Event) (s t : System) → run es s ≡ some t → IsSound s → IsSound t
unfolding run
run-IsSound [] s t h v = rw (← some-injective h) v
run-IsSound (e ∷ es) s t h v = elim (Option-cases (step e s)) [
  | inl n ↦ absurd (ground (arith, h, n))
  | inr (r, p) ↦ run-IsSound es r t (sym (rw (run, p) refl) ∙ h) (step-IsSound e s r p v)
]

-- In a pool of any size, whatever its threads do in any order: the tasks that were taken out and those
-- that wait are the ones put in, in order; each task was called, is in the hands of one worker or
-- waits as often as it was put in; and the mutex is free exactly when no worker is inside it, and
-- held by one otherwise.
pub run-order :
    (n_threads : ℕ) (es : List Event) (s : System)
    → run es (start n_threads) ≡ some s
    → (s.pool.taken ++ s.pool.queue ≡ s.pool.submitted)
      × ((a : ℕ)
          → count a s.pool.ran + total (holds a) s.workers + count a s.pool.queue
            ≡ count a s.pool.submitted)
      × (total locks s.workers ≡ bit s.pool.locked)
run-order n_threads es s h = (
  v.order,
  λ a. omega (arith, v.calls a, ap (count a) v.order, count-append a s.pool.taken s.pool.queue),
  v.mutex,
)
  where
    v : IsSound s
    v = run-IsSound es (start n_threads) s h (start-IsSound n_threads)
