-- ===== src/Pool/Sleep.antt =====
-- A wait that misses its `notify`, since `submit` and `shutdown` do not hold the mutex of the wait.
use cpptool_box.Base.{
  ℕ, zero, suc, ◌≡◌, refl, sym, ◌∙◌, ap, List, [], ◌∷◌, Option, none, some, arith, get_elem?, set,
  ◌==◌, ==_iff, false, some-injective, Option-cases, inl, inr, Bool-cases, All,
}
use cpptool_box.Pool.{
  ThreadPool, Worker, waiting, finished, worker_step, System, start, Event, steps, puts, notifies,
  notifies_nobody, wakes, flags, notifies_all, joins, step, run, stepped, Stage, serving, flagged,
  notified, joined, all_finished, flag_at, notify_at, join_at,
}

-- The events that cannot wake a waiting worker at a stage of `shutdown`: all but a new `submit`, a
-- wait that ends by itself, and the next part of `shutdown`, where it has not yet notified.
abbrev pub IsQuiet : Stage → Event → Type 0
IsQuiet c (puts t) = ⊥
IsQuiet c (wakes i) = ⊥
IsQuiet serving flags = ⊥
IsQuiet flagged notifies_all = ⊥
IsQuiet c e = Unit

-- Worker `i` waits, and no `notify_one` is owed.
pub record IsAsleep (c : Stage) (i : ℕ) (s : System) : Type 0 where
  pub waits : get_elem? s.workers i ≡ some waiting
  pub unpaid : s.owed ≡ 0
  pub stage : s.stage ≡ c

get_elem?-set {ℓ} :
    {A : Type ℓ} (xs : List A) (i j : ℕ) (v : A)
    → (i == j) ≡ false
    → get_elem? (set xs j v) i ≡ get_elem? xs i
get_elem?-set [] i j v h = refl
get_elem?-set (x ∷ xs) zero zero v h = ground (arith, h)
get_elem?-set (x ∷ xs) zero (suc j) v h = refl
get_elem?-set (x ∷ xs) (suc i) zero v h = refl
get_elem?-set (x ∷ xs) (suc i) (suc j) v h = get_elem?-set xs i j v (ground (arith, h))

waiting-not_finished :
    (ws : List Worker) (i : ℕ) → get_elem? ws i ≡ some waiting → all_finished ws ≡ false
waiting-not_finished [] i h = ground (arith, h)
waiting-not_finished (finished ∷ ws) zero h = ground (arith, h)
waiting-not_finished (finished ∷ ws) (suc i) h = waiting-not_finished ws i h
waiting-not_finished (w ∷ ws) i h = refl

joins-stuck :
    (c : Stage) (s t : System) (i : ℕ)
    → get_elem? s.workers i ≡ some waiting
    → join_at c s ≡ some t
    → ⊥
joins-stuck notified s t i g h = ground (arith, h, waiting-not_finished s.workers i g)
joins-stuck c s t i g h = ground (arith, h)

-- Another worker's step leaves the sleeper alone, and the sleeper makes none.
stepped-IsAsleep :
    (c : Stage) (i j : ℕ) (s t : System) (o : Option (ThreadPool × Worker))
    → (i == j) ≡ false
    → stepped s j o ≡ some t
    → IsAsleep c i s
    → IsAsleep c i t
stepped-IsAsleep c i j s t none e h v = ground (arith, h)
stepped-IsAsleep c i j s t (some (m, w)) e h v = rw (← some-injective h) (record {
  waits = get_elem?-set s.workers i j w e ∙ v.waits;
  unpaid = v.unpaid;
  stage = v.stage;
})

sleeper_stuck :
    (j : ℕ) (s : System) → get_elem? s.workers j ≡ some waiting → step (steps j) s ≡ none
unfolding step worker_step
sleeper_stuck j s g = rw (step, g) refl

step_other :
    (j : ℕ) (s : System) (w : Worker)
    → get_elem? s.workers j ≡ some w
    → step (steps j) s ≡ stepped s j (worker_step s.pool w)
unfolding step
step_other j s w g = rw (step, g) refl

steps-IsAsleep :
    (c : Stage) (i j : ℕ) (s t : System)
    → step (steps j) s ≡ some t
    → IsAsleep c i s
    → IsAsleep c i t
unfolding step
steps-IsAsleep c i j s t h v = elim (Bool-cases (i == j)) [
  | inl e ↦ absurd (ground (arith, h, sleeper_stuck j s (rw (← (==_iff i j).0 e) v.waits)))
  | inr e ↦ elim (Option-cases (get_elem? s.workers j)) [
    | inl n ↦ absurd (ground (arith, h, n))
    | inr (w, g) ↦
        stepped-IsAsleep c i j s t (worker_step s.pool w) e (sym (step_other j s w g) ∙ h) v
  ]
]

flags-IsAsleep :
    (c : Stage) (s t : System) → IsQuiet c flags → s.stage ≡ c → flag_at s.stage s ≡ some t → ⊥
flags-IsAsleep c s t q e h = go c q (sym (ap (λ c. flag_at c s) e) ∙ h)
  where
    go : (c : Stage) → IsQuiet c flags → flag_at c s ≡ some t → ⊥
    go serving q h = q
    go flagged q h = ground (arith, h)
    go notified q h = ground (arith, h)
    go joined q h = ground (arith, h)

notifies_all-IsAsleep :
    (c : Stage) (s t : System)
    → IsQuiet c notifies_all
    → s.stage ≡ c
    → notify_at s.stage s ≡ some t
    → ⊥
notifies_all-IsAsleep c s t q e h = go c q (sym (ap (λ c. notify_at c s) e) ∙ h)
  where
    go : (c : Stage) → IsQuiet c notifies_all → notify_at c s ≡ some t → ⊥
    go serving q h = ground (arith, h)
    go flagged q h = q
    go notified q h = ground (arith, h)
    go joined q h = ground (arith, h)

step-IsAsleep :
    (c : Stage) (i : ℕ) (e : Event) (s t : System)
    → IsQuiet c e
    → step e s ≡ some t
    → IsAsleep c i s
    → IsAsleep c i t
unfolding step
step-IsAsleep c i (steps j) s t q h v = steps-IsAsleep c i j s t h v
step-IsAsleep c i (puts a) s t q h v = absurd q
step-IsAsleep c i (notifies j) s t q h v = absurd (ground (arith, h, v.unpaid))
step-IsAsleep c i notifies_nobody s t q h v = absurd (ground (arith, h, v.unpaid))
step-IsAsleep c i (wakes j) s t q h v = absurd q
step-IsAsleep c i flags s t q h v = absurd (flags-IsAsleep c s t q v.stage h)
step-IsAsleep c i notifies_all s t q h v = absurd (notifies_all-IsAsleep c s t q v.stage h)
step-IsAsleep c i joins s t q h v = absurd (joins-stuck s.stage s t i v.waits h)

-- A worker that sleeps at such a moment sleeps on, whatever the other threads do.
run-IsAsleep :
    (c : Stage) (i : ℕ) (es : List Event) (s t : System)
    → All (IsQuiet c) es
    → run es s ≡ some t
    → IsAsleep c i s
    → IsAsleep c i t
unfolding run
run-IsAsleep c i [] s t q h v = rw (← some-injective h) v
run-IsAsleep c i (e ∷ es) s t q h v = elim (Option-cases (step e s)) [
  | inl n ↦ absurd (ground (arith, h, n))
  | inr (r, p) ↦
      run-IsAsleep c i es r t q.1 (sym (rw (run, p) refl) ∙ h) (step-IsAsleep c i e s r q.0 p v)
]

-- `shutdown` between a worker's test of the flag and its wait.
abbrev pub stopping : List Event
stopping = steps 0 ∷ (steps 0 ∷ (steps 0 ∷ (flags ∷ (notifies_all ∷ (steps 0 ∷ [])))))

-- `submit` between the only worker's test of the queue and its wait.
abbrev pub missing : ℕ → List Event
missing a = steps 0 ∷ (steps 0 ∷ (steps 0 ∷ (puts a ∷ (notifies_nobody ∷ (steps 0 ∷ [])))))

-- A pool of any size but 0 can shut down so that the call of `shutdown` does not return: worker 0
-- waits after the notification, and no further steps of the threads end the loop of `join`, unless a
-- new task is submitted or a wait ends by itself.
pub shutdown_hangs :
    (n : ℕ)
    → (s : System) × (run stopping (start (suc n)) ≡ some s)
      × ((es : List Event) (t : System)
          → All (IsQuiet notified) es
          → run es s ≡ some t
          → t.stage ≡ notified)
unfolding run step worker_step
shutdown_hangs n = (
  _,
  refl,
  λ es t q h.
      (run-IsAsleep notified 0 es _ t q h
        (record { waits = refl; unpaid = refl; stage = refl })).stage,
)

-- With its only worker asleep, a pool that nobody shuts down does nothing.
idle_stuck :
    (s t : System) (e : Event)
    → s.workers ≡ waiting ∷ []
    → s.owed ≡ 0
    → s.stage ≡ serving
    → IsQuiet serving e
    → step e s ≡ some t
    → ⊥
unfolding step
idle_stuck s t (steps zero) w o c q h =
    ground (arith, h, sleeper_stuck 0 s (ap (λ ws. get_elem? ws 0) w))
idle_stuck s t (steps (suc j)) w o c q h = ground (arith, h, nobody j)
  where
    nobody : (j : ℕ) → step (steps (suc j)) s ≡ none
    nobody j = rw (step, w) refl
idle_stuck s t (puts a) w o c q h = q
idle_stuck s t (notifies j) w o c q h = ground (arith, h, o)
idle_stuck s t notifies_nobody w o c q h = ground (arith, h, o)
idle_stuck s t (wakes j) w o c q h = q
idle_stuck s t flags w o c q h = q
idle_stuck s t notifies_all w o c q h = ground (arith, sym (ap (λ c. notify_at c s) c) ∙ h)
idle_stuck s t joins w o c q h = joins-stuck s.stage s t 0 (ap (λ ws. get_elem? ws 0) w) h

idle-run :
    (s t : System) (es : List Event)
    → s.workers ≡ waiting ∷ []
    → s.owed ≡ 0
    → s.stage ≡ serving
    → All (IsQuiet serving) es
    → run es s ≡ some t
    → t ≡ s
unfolding run
idle-run s t [] w o c q h = sym (some-injective h)
idle-run s t (e ∷ es) w o c q h = elim (Option-cases (step e s)) [
  | inl n ↦ absurd (ground (arith, h, n))
  | inr (r, p) ↦ absurd (idle_stuck s r e w o c q.0 p)
]

-- A pool with one worker can lose a task: it is in the queue, and whatever the threads do, it stays
-- there and nothing has been called, and the worker waits, until another task is submitted, `shutdown`
-- is called or the wait ends by itself.
pub submit_lost :
    (a : ℕ)
    → (s : System) × (run (missing a) (start 1) ≡ some s)
      × (s.pool.queue ≡ a ∷ [])
      × ((es : List Event) (t : System)
          → All (IsQuiet serving) es
          → run es s ≡ some t
          → (t.pool.queue ≡ a ∷ []) × (t.pool.ran ≡ []) × (get_elem? t.workers 0 ≡ some waiting))
unfolding run step worker_step
submit_lost a = (
  _,
  refl,
  refl,
  λ es t q h.
      let same = idle-run _ t es refl refl refl q h in
      (
        ap (λ t. t.pool.queue) same,
        ap (λ t. t.pool.ran) same,
        ap (λ t. get_elem? t.workers 0) same,
      ),
)
