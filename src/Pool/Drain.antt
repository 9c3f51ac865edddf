-- ===== src/Pool/Drain.antt =====
-- The pool makes progress: a worker that runs serves the queue, and the mutex blocks no one for good.
use cpptool_box.Base.{
  ℕ, zero, suc, ◌<◌, ◌≡◌, ◌≢◌, refl, sym, subst, List, [], ◌∷◌, ◌++◌, Option, none, some, arith,
  get_elem?, set, true, false, inl, inr, Bool-cases,
}
use mathlib.Core.List.{append_assoc, append-nil}
use cpptool_box.Pool.{
  ThreadPool, Worker, head, locking, checking, sleeping, waiting, waking, dequeuing, unlocking,
  calling, finished, worker_step, System, start, Event, steps, step, run,
}
use cpptool_box.Base.{total, total-some}
use cpptool_box.Pool.Order.{locks, run-order}

-- `n` steps of one worker with none of another thread between them.
unfoldable pub alone : ℕ → ThreadPool → Worker → Option (ThreadPool × Worker)
alone zero m w = some (m, w)
alone (suc n) m w = elim (worker_step m w) [ none ↦ none | some (m', w') ↦ alone n m' w' ]

-- The six steps of a round that finds a task.
abbrev round : ℕ → ℕ
round n = suc (suc (suc (suc (suc (suc n)))))

abbrev pub rounds : List ℕ → ℕ
rounds [] = 0
rounds (t ∷ q) = round (rounds q)

abbrev serving_pool : List ℕ → List ℕ → List ℕ → List ℕ → ThreadPool
serving_pool q p t r = record {
  shutdown = false;
  queue = q;
  locked = false;
  submitted = p;
  taken = t;
  ran = r;
}

drains :
    (q p t r : List ℕ)
    → alone (rounds q) (serving_pool q p t r) head
      ≡ some (serving_pool [] p (t ++ q) (r ++ q), head)
unfolding alone worker_step
drains [] p t r = rw (append-nil t, append-nil r) refl
drains (a ∷ q) p t r =
    rw (← append_assoc t (a ∷ []) q, ← append_assoc r (a ∷ []) q)
      (drains q p (t ++ (a ∷ [])) (r ++ (a ∷ [])))

-- A worker at the head of its loop that runs while the mutex is free and the pool is not shut down
-- takes out and calls all that waits in the queue, in order, and is at the head again.
pub alone-drains :
    (m : ThreadPool)
    → m.shutdown ≡ false
    → m.locked ≡ false
    → alone (rounds m.queue) m head
      ≡ some (record m { queue = []; taken = m.taken ++ m.queue; ran = m.ran ++ m.queue }, head)
alone-drains m s l =
    subst
      (λ x.
        alone (rounds m.queue) x head
        ≡ some (record x { queue = []; taken = m.taken ++ m.queue; ran = m.ran ++ m.queue }, head))
      (sym e) (drains m.queue m.submitted m.taken m.ran)
  where
    e : m ≡ serving_pool m.queue m.submitted m.taken m.ran
    e = ground (arith, s, l)

-- A worker that can make no step waits, has returned, or wants the mutex while it is held.
step_cases :
    (m : ThreadPool) (w : Worker)
    → w ≢ waiting
    → w ≢ finished
    → m.locked ≡ false
    → (r : ThreadPool × Worker) × (worker_step m w ≡ some r)
unfolding worker_step
step_cases m head a b l = (_, refl)
step_cases m locking a b l = ((record m { locked = true }, checking), rw (l) refl)
step_cases m checking a b l = (_, refl)
step_cases m sleeping a b l = (_, refl)
step_cases m waiting a b l = absurd (a refl)
step_cases m waking a b l = ((record m { locked = true }, dequeuing), rw (l) refl)
step_cases m dequeuing a b l = (_, refl)
step_cases m (unlocking o) a b l = (_, refl)
step_cases m (calling t) a b l = (_, refl)
step_cases m finished a b l = absurd (b refl)

holder_steps :
    (m : ThreadPool) (w : Worker)
    → 0 < locks w
    → (r : ThreadPool × Worker) × (worker_step m w ≡ some r)
unfolding worker_step
holder_steps m checking h = (_, refl)
holder_steps m sleeping h = (_, refl)
holder_steps m dequeuing h = (_, refl)
holder_steps m (unlocking o) h = (_, refl)
holder_steps m w h = absurd (omega arith)

can_step :
    (s : System) (i : ℕ) (w : Worker) (r : ThreadPool × Worker)
    → get_elem? s.workers i ≡ some w
    → worker_step s.pool w ≡ some r
    → (t : System) × (step (steps i) s ≡ some t)
unfolding step
can_step s i w (m, w') g e =
    (record s { pool = m; workers = set s.workers i w' }, rw (step, g, e) refl)

-- In every state that a pool comes to, if some worker neither waits nor has returned, then some worker
-- can make a step: the mutex is never held by a worker that cannot go on.
pub run-progress :
    (n_threads : ℕ) (es : List Event) (s : System) (i : ℕ) (w : Worker)
    → run es (start n_threads) ≡ some s
    → get_elem? s.workers i ≡ some w
    → w ≢ waiting
    → w ≢ finished
    → (j : ℕ) × ((t : System) × (step (steps j) s ≡ some t))
run-progress n_threads es s i w h g a b = elim (Bool-cases s.pool.locked) [
  | inl l ↦
      let (j, (v, (e, p))) = total-some locks s.workers (held l) in
      let (r, k) = holder_steps s.pool v p in (j, can_step s j v r e k)
  | inr l ↦ let (r, k) = step_cases s.pool w a b l in (i, can_step s i w r g k)
]
  where
    held : s.pool.locked ≡ true → 0 < total locks s.workers
    held l = ground (arith, (run-order n_threads es s h).2, l)
