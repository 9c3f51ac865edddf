-- ===== src/Event/Loop/Tasks.antt =====
-- The tasks of a loop run one per round, first in first out.
use mathlib.Core.List.{append_assoc, append-nil}
use cpptool_box.Base.{ℕ, zero, suc, ◌≡◌, refl, sym, ap, ◌∙◌, List, [], ◌∷◌, ◌++◌}
use cpptool_box.Event.Loop.{Loop, handle_task_fun, handle_front}

module _ (spawns : ℕ → List ℕ) where
  -- `n` rounds of `handleTaskFun`.
  unfoldable pub handle_tasks : ℕ → Loop → Loop
  handle_tasks zero l = l
  handle_tasks (suc n) l = handle_tasks n (handle_task_fun spawns l)

  -- What the first `n` tasks of a queue, and the tasks that they spawn, put into the queue.
  unfoldable pub spawned : ℕ → List ℕ → List ℕ
  spawned zero q = []
  spawned (suc n) [] = []
  spawned (suc n) (t ∷ q) = spawns t ++ spawned n (q ++ spawns t)

  front_lem :
      (l : Loop) (t : ℕ) (q : List ℕ)
      → l.task_queue ≡ t ∷ q
      → handle_task_fun spawns l
        ≡ record l { task_queue = q ++ spawns t; tasks_run = l.tasks_run ++ (t ∷ []) }
  unfolding handle_task_fun
  front_lem l t q h = rw h refl

  none_lem : (l : Loop) → l.task_queue ≡ [] → handle_task_fun spawns l ≡ l
  unfolding handle_task_fun
  none_lem l h = ap (λ q. handle_front spawns q l) h

  spawned-none : (n : ℕ) → spawned n [] ≡ []
  unfolding spawned
  spawned-none zero = refl
  spawned-none (suc n) = refl

  regroup :
      (r q s x : List ℕ) (t : ℕ) → ((r ++ (t ∷ [])) ++ (q ++ s)) ++ x ≡ (r ++ (t ∷ q)) ++ (s ++ x)
  regroup r q s x t =
      rw
        (
          append_assoc r (t ∷ []) (q ++ s),
          append_assoc r (t ∷ (q ++ s)) x,
          append_assoc q s x,
          append_assoc r (t ∷ q) (s ++ x),
        )
        refl

  from_queue :
      (n : ℕ) (q : List ℕ) (l : Loop)
      → l.task_queue ≡ q
      → (handle_tasks n l).tasks_run ++ (handle_tasks n l).task_queue
        ≡ (l.tasks_run ++ q) ++ spawned n q
  unfolding handle_tasks spawned
  from_queue zero q l h = ap (λ x. l.tasks_run ++ x) h ∙ sym (append-nil (l.tasks_run ++ q))
  from_queue (suc n) [] l h =
      ap (λ k. (handle_tasks n k).tasks_run ++ (handle_tasks n k).task_queue) (none_lem l h)
      ∙ from_queue n [] l h
      ∙ ap (λ x. (l.tasks_run ++ []) ++ x) (spawned-none n)
  from_queue (suc n) (t ∷ q) l h =
      let k : Loop = record l { task_queue = q ++ spawns t; tasks_run = l.tasks_run ++ (t ∷ []) } in
      ap (λ k. (handle_tasks n k).tasks_run ++ (handle_tasks n k).task_queue) (front_lem l t q h)
      ∙ from_queue n (q ++ spawns t) k refl
      ∙ regroup l.tasks_run q (spawns t) (spawned n (q ++ spawns t)) t

  -- The tasks that were run, followed by those that wait, are the ones there were at the start,
  -- followed by the ones that were put in since: no task is lost, repeated or overtaken.
  pub handle_tasks-fifo :
      (n : ℕ) (l : Loop)
      → (handle_tasks n l).tasks_run ++ (handle_tasks n l).task_queue
        ≡ (l.tasks_run ++ l.task_queue) ++ spawned n l.task_queue
  handle_tasks-fifo n l = from_queue n l.task_queue l refl
