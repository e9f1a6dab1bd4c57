-- ===== src/Threads/Examples.antt =====
-- A worker and an API server that are started, stopped and started again.
use blackbear_edge_bridge.Prelude.{
  ◌≤◌, ◌≡◌, ◌≢◌, ◌⊎◌, inl, refl, true, false, none, some, [], All, length,
}
use blackbear_edge_bridge.Odoo.Client.{authentication_error}
use blackbear_edge_bridge.Threads.Loop.{is_alive, is_running, stop, leave}
use blackbear_edge_bridge.Threads.Single.{IsSingle}
use blackbear_edge_bridge.Threads.Workers.{
  WorkerThreads, no_threads, start_worker, stop_worker, leave_loop, watchdog_alive, WorkerReach,
  worker_made, worker_later, worker_starts, worker_stops, loop_leaves,
}
use blackbear_edge_bridge.Threads.OneWorker.{worker-IsSingle}
use blackbear_edge_bridge.Threads.Server.{
  ServerThread, ApiServer, no_server, start, request_stop, release, ends, begin_run, ServerReach,
  server_made, server_later, starts, asks, releases, begins, thread_ends,
}
use blackbear_edge_bridge.Threads.Server as Api
use blackbear_edge_bridge.Threads.OneServer.{server-IsSingle}

abbrev first_start : WorkerThreads
first_start = (start_worker (some (authentication_error "refused")) no_threads).1

abbrev restarted : WorkerThreads
restarted = (start_worker none (leave_loop 0 (stop_worker first_start))).1

reached : WorkerReach restarted
unfolding start_worker stop_worker leave_loop stop leave is_running is_alive
reached =
    worker_later
      (worker_later
        (worker_later
          (worker_later worker_made (worker_starts (some (authentication_error "refused"))))
          worker_stops)
        (loop_leaves 0 refl refl))
      (worker_starts none)

worker-IsSingle_example :
    IsSingle restarted.loop
    × (restarted.watchdog_thread ≢ none
        → restarted.loop.stop_event ≡ false
        → watchdog_alive restarted ≡ true)
worker-IsSingle_example = worker-IsSingle reached

abbrev served : ApiServer
served = begin_run 0 (start true no_server)

abbrev stopped : ApiServer
stopped = release (ends 0 (request_stop served))

server_reached : ServerReach true false (start true stopped)
unfolding start request_stop release ends begin_run Api.is_running
server_reached =
    server_later
      (server_later
        (server_later
          (server_later (server_later (server_later server_made (starts refl)) (begins 0 refl))
            (asks refl))
          (thread_ends 0 refl))
        (releases refl (inl refl)))
      (starts refl)

server-IsSingle_example :
    (length (start true stopped).live ≤ 1)
    × All (λ (u : ServerThread). (u.runs ≡ none) ⊎ (u.runs ≡ some u.id)) (start true stopped).live
    × (Api.is_running (start true stopped) ≡ false → (start true stopped).live ≡ [])
server-IsSingle_example = server-IsSingle server_reached
