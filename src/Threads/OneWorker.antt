-- ===== src/Threads/OneWorker.antt =====
-- How many threads a queue worker has.
use mathlib.Core.Path.{subst}
use blackbear_edge_bridge.Prelude.{
  ℕ, ◌≡◌, ◌≢◌, ◌⊎◌, inl, inr, refl, ap, Bool, true, false, Option, none, some, [], ◌∷◌, nat_eq_refl,
  arith, if◌then◌else◌,
}
use blackbear_edge_bridge.Odoo.Client.{
  ClientError, authentication_error, submission_error, uncaught, returns,
}
use blackbear_edge_bridge.Threads.Loop.{
  Loop, is_alive, thread_alive, is_running, launch, stop, leave, Step, starts, stops, leaves, Reach,
  made, later, start,
}
use blackbear_edge_bridge.Threads.Single.{IsSingle, Reach-IsSingle}
use blackbear_edge_bridge.Threads.Workers.{
  WorkerThreads, launch_both, after_login, start_worker, stop_worker, leave_loop, leave_watchdog,
  watchdog_alive, WorkerStep, worker_starts, worker_stops, loop_leaves, watchdog_leaves,
  WorkerReach, worker_made, worker_later,
}

launches : (l : Loop) → is_running l ≡ false → Step true l (launch l)
unfolding start
launches l h = subst (λ m. Step true l m) (start-launch l h) starts
  where
    start-launch : (l : Loop) → is_running l ≡ false → start true l ≡ launch l
    start-launch l h = rw h refl

-- Every step of the worker is a step of its loop, or leaves it as it is.
Step-loop : {w v : WorkerThreads} → WorkerStep w v → Step true w.loop v.loop ⊎ (v.loop ≡ w.loop)
unfolding start_worker stop_worker leave_loop leave_watchdog
Step-loop {w} (worker_starts login) = by_running (is_running w.loop) refl login
  where
    by_running :
        (b : Bool)
        → is_running w.loop ≡ b
        → (login : Option ClientError)
        → Step true w.loop (if b then (returns tt, w) else after_login login w).1.loop
          ⊎ ((if b then (returns tt, w) else after_login login w).1.loop ≡ w.loop)
    by_running true h login = inr refl
    by_running false h none = inl (launches w.loop h)
    by_running false h (some (authentication_error message)) = inl (launches w.loop h)
    by_running false h (some (submission_error message)) = inr refl
    by_running false h (some (uncaught e)) = inr refl
Step-loop worker_stops = inl stops
Step-loop (loop_leaves t a s) = inl (leaves t a s)
Step-loop (watchdog_leaves t a s) = inr refl

loop_reached : {w : WorkerThreads} → WorkerReach w → Reach true w.loop
loop_reached worker_made = made
loop_reached (worker_later r st) = elim (Step-loop st) [
  | inl step ↦ later (loop_reached r) step
  | inr same ↦ rw same (loop_reached r)
]

-- the watchdog that was started last is alive until a stop
abbrev IsWatched : WorkerThreads → Type 0
IsWatched w = w.watchdog_thread ≢ none → w.loop.stop_event ≡ false → watchdog_alive w ≡ true

both-IsWatched : (w : WorkerThreads) → watchdog_alive (launch_both w) ≡ true
unfolding watchdog_alive is_alive
both-IsWatched w = rw (nat_eq_refl w.loop.next) refl

Step-IsWatched : {w v : WorkerThreads} → WorkerStep w v → IsWatched w → IsWatched v
unfolding start_worker stop_worker leave_loop leave_watchdog leave stop watchdog_alive
Step-IsWatched {w} (worker_starts login) p = by_running (is_running w.loop) login
  where
    by_running :
        (b : Bool) (login : Option ClientError)
        → IsWatched (if b then (returns tt, w) else after_login login w).1
    by_running true login = p
    by_running false none = λ started s. both-IsWatched w
    by_running false (some (authentication_error message)) = λ started s. both-IsWatched w
    by_running false (some (submission_error message)) = p
    by_running false (some (uncaught e)) = p
Step-IsWatched worker_stops p = λ started s. absurd (ground (arith, s))
Step-IsWatched (loop_leaves t a s) p = λ started f. absurd (ground (arith, s, f))
Step-IsWatched (watchdog_leaves t a s) p = λ started f. absurd (ground (arith, s, f))

watched : {w : WorkerThreads} → WorkerReach w → IsWatched w
watched worker_made = λ started s. absurd (started refl)
watched (worker_later r st) = Step-IsWatched st (watched r)

-- Whatever the order of starts, stops and threads that leave, and whatever the authentication at a
-- start ends with, at most one thread of a worker claims and submits messages; and after a start that
-- thread and the watchdog go on until a stop is asked for.
pub worker-IsSingle :
    {w : WorkerThreads}
    → WorkerReach w
    → IsSingle w.loop
      × (w.watchdog_thread ≢ none → w.loop.stop_event ≡ false → watchdog_alive w ≡ true)
worker-IsSingle r = (Reach-IsSingle (loop_reached r), watched r)

none_alive : (o : Option ℕ) → thread_alive o [] ≡ false
unfolding is_alive
none_alive none = refl
none_alive (some t) = refl

left_is_over : (t : ℕ) (l : Loop) → l.live ≡ t ∷ [] → is_running (leave t (stop l)) ≡ false
unfolding leave stop is_running
left_is_over t l e = rw (e, nat_eq_refl t) (none_alive l.thread)

starts_again :
    (w : WorkerThreads) → is_running w.loop ≡ false → (start_worker none w).1 ≡ launch_both w
unfolding start_worker
starts_again w h = rw h refl

-- A worker that is stopped and started again while its watchdog is still busy has two watchdogs, since
-- `start` looks at the worker thread alone and clears the event that the old watchdog waits for.
pub restart_doubles_watchdog :
    {w : WorkerThreads} (t : ℕ)
    → WorkerReach w
    → w.loop.live ≡ t ∷ []
    → (v : WorkerThreads) × WorkerReach v
      × (v.watchdogs ≡ w.loop.next ∷ w.watchdogs)
      × (v.loop.stop_event ≡ false)
unfolding stop_worker leave_loop leave stop is_alive
restart_doubles_watchdog {w} t r e =
    let over = leave_loop t (stop_worker w) in
    let again = starts_again over (left_is_over t w.loop e) in
    (
      (start_worker none over).1,
      restarted,
      ap (λ (v : WorkerThreads). v.watchdogs) again,
      ap (λ (v : WorkerThreads). v.loop.stop_event) again,
    )
  where
    stopped : WorkerReach (stop_worker w)
    stopped = worker_later r worker_stops

    left : WorkerReach (leave_loop t (stop_worker w))
    left = worker_later stopped (loop_leaves t (rw (e, nat_eq_refl t) refl) refl)

    restarted : WorkerReach (start_worker none (leave_loop t (stop_worker w))).1
    restarted = worker_later left (worker_starts none)
