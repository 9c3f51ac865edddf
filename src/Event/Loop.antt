-- ===== src/Event/Loop.antt =====
-- gwcpp/event/Loop.cpp, EpollFdEvent.cpp (handleEvent) and Poller.cpp (poll): the rounds of a loop.
-- What epoll_wait returns is an argument; a callback that an event calls is recorded.
pub mod Tasks
pub mod Events
use cpptool_box.Base.{
  ℕ, ◌*◌, List, [], ◌∷◌, ◌++◌, Bool, true, false, not, ◌&&◌, ◌||◌, ◌==◌, leb, ltb, Option, none,
  some, if◌then◌else◌, length, ℤ, pos, ltb_ℤ,
}
use cpptool_box.Event.{◌>>=◌}
use cpptool_box.Event.Poller.{Poller, FdEvent, Revents, set_event, disable_all}

-- Which callbacks an event has.
pub record Callbacks : Type 0 where
  pub read_callback : Bool
  pub write_callback : Bool
  pub close_callback : Bool
  pub error_callback : Bool

-- A call of one of them, on an event.
pub data Call : Type 0 where
  close_call error_call read_call write_call : ℕ → Call

-- `eventHandling_` is never set to true. `events_size` is the size of the poller's `events_`.
pub record Loop : Type 0 where
  pub keep_running : Bool
  pub epoll_fd : ℤ
  pub poller : Poller
  pub events_size : ℕ
  pub callbacks : ℕ → Callbacks
  pub active_events : List ℕ
  pub task_queue : List ℕ
  pub thread_pool : List ℕ
  pub tasks_run : List ℕ
  pub calls : List Call

pub data Mode : Type 0 where
  once forever : Mode

-- `if (cb) cb(…)` behind a test.
abbrev pub calling : Bool → Bool → Call → List Call
calling test cb c = if test && cb then c ∷ [] else []

-- The calls of `handleLockEvent`, in its order.
unfoldable pub lock_event_calls : Revents → Callbacks → ℕ → List Call
lock_event_calls r cb id =
    calling (r.epollhup && not r.epollin) cb.close_callback (close_call id)
    ++ (calling (r.epollerr || r.epollerr) cb.error_callback (error_call id)
        ++ (calling (r.epollin || (r.epollpri || r.epollrdhup)) cb.read_callback (read_call id)
            ++ calling r.epollout cb.write_callback (write_call id)))

-- `lockEvent_ = true; this->disableAll();`
abbrev pub lock_and_disable : Poller → ℕ → Option Poller
lock_and_disable p id = disable_all (set_event p id (record (p.event id) { lock_event = true })) id

abbrev pub with_calls : Loop → ℕ → Loop
with_calls l id = record l {
  calls = l.calls ++ lock_event_calls (l.poller.event id).revents (l.callbacks id) id;
}

abbrev pub stopped_after : Bool → Loop → ℕ → Option Loop
stopped_after true l id = lock_and_disable l.poller id >>= λ p. some (record l { poller = p })
stopped_after false l id = some l

unfoldable pub handle_lock_event : Loop → ℕ → Option Loop
handle_lock_event l id =
    stopped_after (l.poller.event id).is_stop_after_trigger (with_calls l id) id

-- `handleEvent`.
unfoldable pub handle_event : Loop → ℕ → Option Loop
handle_event l id = if (l.poller.event id).lock_event then some l else handle_lock_event l id

-- `fillActiveEvents`, for what epoll_wait stored.
unfoldable pub fill_active_events : Loop → List (ℕ × Revents) → Loop
fill_active_events l [] = l
fill_active_events l ((id, r) ∷ es) =
    fill_active_events
      (record l {
        poller = set_event l.poller id (record (l.poller.event id) { revents = r });
        active_events = l.active_events ++ (id ∷ []);
      })
      es

-- `poll`: epoll_wait stores at most `events_size` events; a buffer that is filled grows.
unfoldable pub poll : Loop → List (ℕ × Revents) → Option Loop
poll l es =
    if ltb 0 (length es)
    then (if leb (length es) l.events_size
        then some (
            if length es == l.events_size
            then record (fill_active_events l es) { events_size = l.events_size * 2 }
            else fill_active_events l es)
        else none)
    else some l

-- `runTask`.
unfoldable pub run_task : Loop → ℕ → Bool → Loop
run_task l t in_thread_pool =
    if in_thread_pool
    then record l { thread_pool = l.thread_pool ++ (t ∷ []) }
    else record l { task_queue = l.task_queue ++ (t ∷ []) }

unfoldable pub exit_loop : Loop → Loop
exit_loop l = record l { keep_running = false }

-- `pop_front`.
abbrev pub pop_front : List ℕ → List ℕ
pop_front [] = []
pop_front (t ∷ ts) = ts

-- What tasks do is a parameter: the tasks that each one puts into the queue by `runTask`.
module _ (spawns : ℕ → List ℕ) where
  -- A task runs while it still stands at the front of the queue.
  abbrev pub execute : ℕ → Loop → Loop
  execute t l = record l {
    task_queue = l.task_queue ++ spawns t;
    tasks_run = l.tasks_run ++ (t ∷ []);
  }

  abbrev pub handle_front : List ℕ → Loop → Loop
  handle_front [] l = l
  handle_front (t ∷ ts) l = record (execute t l) { task_queue = pop_front (execute t l).task_queue }

  unfoldable pub handle_task_fun : Loop → Loop
  handle_task_fun l = handle_front l.task_queue l

  unfoldable pub handle_events : Loop → List ℕ → Option Loop
  handle_events l [] = some l
  handle_events l (id ∷ ids) = handle_event l id >>= λ k. handle_events k ids

  -- The body of the loop.
  unfoldable pub round : Loop → List (ℕ × Revents) → Option Loop
  round l es = poll (record l { active_events = [] }) es >>= λ k.
      handle_events (handle_task_fun k) (handle_task_fun k).active_events

  -- The rounds, by what epoll_wait returns in each; a loop that is told to go on when nothing more is
  -- given is left running.
  unfoldable pub rounds : Loop → List (List (ℕ × Revents)) → Option Loop
  rounds l [] = some l
  rounds l (es ∷ ess) = round l es >>= λ k. elim k.keep_running [
    | true ↦ rounds k ess
    | false ↦ some (record k { keep_running = false })
  ]

  abbrev pub is_forever : Mode → Bool
  is_forever once = false
  is_forever forever = true

  unfoldable pub run_loop : Mode → Loop → List (List (ℕ × Revents)) → Option Loop
  run_loop mode l ess =
      if ltb_ℤ l.epoll_fd (pos 0)
      then some l
      else rounds (record l { keep_running = is_forever mode }) ess
