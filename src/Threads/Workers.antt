-- ===== src/Threads/Workers.antt =====
-- `start` and `stop` of app/queue_worker.py: a worker thread, and a watchdog thread beside it. What the
-- authentication at the start ends with is a parameter.
use blackbear_edge_bridge.Prelude.{
  ℕ, ◌≡◌, Bool, true, Option, none, some, List, [], ◌∷◌, if◌then◌else◌,
}
use blackbear_edge_bridge.Odoo.Client.{
  ClientError, authentication_error, submission_error, uncaught, Outcome, returns, raises,
}
use blackbear_edge_bridge.Threads.Loop.{
  Loop, initial, is_alive, thread_alive, is_running, launch, stop, leave, without,
}

-- `_thread` with the loop of `_run_loop`; `_watchdog_thread`, and the threads in `_watchdog_loop`
pub record WorkerThreads : Type 0 where
  pub loop : Loop
  pub watchdog_thread : Option ℕ
  pub watchdogs : List ℕ

abbrev pub no_threads : WorkerThreads
no_threads = record { loop = initial; watchdog_thread = none; watchdogs = [] }

-- the watchdog has the number of the worker thread that is started with it
abbrev pub launch_both : WorkerThreads → WorkerThreads
launch_both w = record {
  loop = launch w.loop;
  watchdog_thread = some w.loop.next;
  watchdogs = w.loop.next ∷ w.watchdogs;
}

-- OdooAuthenticationError is logged, any other exception leaves `start`
abbrev pub after_login : Option ClientError → WorkerThreads → Outcome (Unit {0}) × WorkerThreads
after_login none w = (returns tt, launch_both w)
after_login (some (authentication_error message)) w = (returns tt, launch_both w)
after_login (some (submission_error message)) w = (raises (submission_error message), w)
after_login (some (uncaught e)) w = (raises (uncaught e), w)

unfoldable pub start_worker :
    Option ClientError → WorkerThreads → Outcome (Unit {0}) × WorkerThreads
start_worker login w = if is_running w.loop then (returns tt, w) else after_login login w

-- `_stop_event.set()`, which both threads read
unfoldable pub stop_worker : WorkerThreads → WorkerThreads
stop_worker w = record w { loop = stop w.loop }

unfoldable pub leave_loop : ℕ → WorkerThreads → WorkerThreads
leave_loop t w = record w { loop = leave t w.loop }

unfoldable pub leave_watchdog : ℕ → WorkerThreads → WorkerThreads
leave_watchdog t w = record w { watchdogs = without t w.watchdogs }

-- `is_running` and the liveness of the watchdog, as `state_snapshot` reads them
unfoldable pub watchdog_alive : WorkerThreads → Bool
watchdog_alive w = thread_alive w.watchdog_thread w.watchdogs

pub data WorkerStep (w : WorkerThreads) : WorkerThreads → Type 0 where
  worker_starts : (login : Option ClientError) → WorkerStep w (start_worker login w).1
  worker_stops : WorkerStep w (stop_worker w)
  loop_leaves :
      (t : ℕ)
      → is_alive t w.loop.live ≡ true
      → w.loop.stop_event ≡ true
      → WorkerStep w (leave_loop t w)
  watchdog_leaves :
      (t : ℕ)
      → is_alive t w.watchdogs ≡ true
      → w.loop.stop_event ≡ true
      → WorkerStep w (leave_watchdog t w)

pub data WorkerReach : WorkerThreads → Type 0 where
  worker_made : WorkerReach no_threads
  worker_later : {w v : WorkerThreads} → WorkerReach w → WorkerStep w v → WorkerReach v
