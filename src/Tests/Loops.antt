-- ===== src/Tests/Loops.antt =====
-- Tests of the poller, the loop and the timer of gwcpp/event.
use cpptool_box.Base.{
  ℕ, ◌⊎◌, ◌+◌, ◌*◌, ◌-◌, ◌<◌, ◌≡◌, refl, List, [], ◌∷◌, ◌++◌, none, true, arith, pos,
}
use cpptool_box.Event.Poller.{new_event, enable_reading, update_event, remove}
use cpptool_box.Event.Poller.Requests
use cpptool_box.Event.Poller.Requests.{
  Request, enables_reading, enables_writing, disables_all, removes, disables_and_removes, Succeeds,
  Refused, run-total,
}
use cpptool_box.Event.Loop.{Loop}
use cpptool_box.Event.Loop.Tasks.{handle_tasks, spawned, handle_tasks-fifo}
use cpptool_box.Event.Timer.{
  Timer, split_nanosec, from_now_in_time_spec, nanosecs_per_second, nanos_in_mill,
}
use cpptool_box.Event.Timer.Spec.{time_spec-exact}
use cpptool_box.Tests.{idle_poller, idle-IsValid, idle-Distinct, watching_poller}
use cpptool_box.Tests.Connections.{read_mask}

abbrev requests : List Request
requests =
    enables_reading 0
    ∷ (enables_writing 1
        ∷ (disables_all 0 ∷ (removes 0 ∷ (disables_and_removes 1 ∷ (enables_reading 0 ∷ [])))))

run-total_example :
    Succeeds (Requests.run idle_poller requests)
    ⊎ ((Requests.run idle_poller requests ≡ none) × Refused idle_poller requests)
run-total_example = run-total idle_poller requests idle-IsValid idle-Distinct

-- A removal alone of an event that still reads fails an assertion.
remove-reading : Requests.run idle_poller (enables_reading 0 ∷ (removes 0 ∷ [])) ≡ none
unfolding Requests.run Requests.handle new_event enable_reading update_event remove
remove-reading = refl

abbrev loop : Loop
loop = record {
  keep_running = true;
  epoll_fd = pos 4;
  poller = watching_poller read_mask;
  events_size = 256;
  callbacks = λ j. record {
    read_callback = true;
    write_callback = true;
    close_callback = true;
    error_callback = true;
  };
  active_events = [];
  task_queue = 1 ∷ (2 ∷ []);
  thread_pool = [];
  tasks_run = [];
  calls = [];
}

abbrev spawn : ℕ → List ℕ
spawn t = (t + 10) ∷ []

handle_tasks-fifo_example :
    (handle_tasks spawn 3 loop).tasks_run ++ (handle_tasks spawn 3 loop).task_queue
    ≡ (loop.tasks_run ++ loop.task_queue) ++ spawned spawn 3 loop.task_queue
handle_tasks-fifo_example = handle_tasks-fifo spawn 3 loop

time_spec-exact_example :
    ((from_now_in_time_spec 1000 3500).tv_sec * nanosecs_per_second
        + (from_now_in_time_spec 1000 3500).tv_nsec
      ≡ (3500 - 1000) * nanos_in_mill)
    × ((from_now_in_time_spec 1000 3500).tv_nsec < nanosecs_per_second)
time_spec-exact_example = time_spec-exact 1000 3500 (omega arith)

abbrev timer : Timer
timer = record {
  timer_fd = pos 5;
  timer_spec = record {
    it_value = split_nanosec (pos 1500000000);
    it_interval = split_nanosec (pos 0);
  };
  event = 2;
  timer_callback = true;
  poller = idle_poller;
  settimes = [];
  calls = 0;
}
