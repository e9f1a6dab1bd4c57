-- ===== src/Health/Degraded.antt =====
-- What the status of the health endpoint (app/api.py) means for the components.
use blackbear_edge_bridge.Prelude.{
  ℕ, ◌+◌, ◌-◌, ◌*◌, ◌<◌, ◌≤◌, ◌≡◌, ◌⊎◌, ◌↔◌, refl, Bool, true, false, not, ◌&&◌, Option, none, some,
  List, [], ◌∷◌, arith, count, length, inl, inr, if◌then◌else◌,
}
use blackbear_edge_bridge.Time.{micros, format_timestamp}
use blackbear_edge_bridge.Queue.Message.{
  StatusValue, new, processing, completed, failed, is_new, is_processing, is_completed, is_failed,
  MessageRecord, Messages,
}
use blackbear_edge_bridge.Queue.Mark.{get_queue_counts}
use blackbear_edge_bridge.Worker.Process.{WorkerState, begin_record}
use blackbear_edge_bridge.Worker.Round.{worker_healthy}
use blackbear_edge_bridge.Readiness.Monitor.{
  ReadinessState, ready, not_ready, unknown, disabled, ReadinessSnapshot,
}
use blackbear_edge_bridge.Health.Status.{DatabaseStatus}
use blackbear_edge_bridge.Health.Endpoint.{
  HealthSettings, since, heartbeat_age, health_snapshot, RunningWorker, worker_health,
  readiness_health, is_ready, HealthStatus, status_ok, degraded, health,
}

counts_rows :
    (rows : List MessageRecord)
    → count (λ (r : MessageRecord). is_new r.status) rows
        + count (λ (r : MessageRecord). is_processing r.status) rows
        + count (λ (r : MessageRecord). is_failed r.status) rows
        + count (λ (r : MessageRecord). is_completed r.status) rows
      ≡ length rows
counts_rows [] = omega arith
counts_rows (r ∷ rows) = omega (arith, counts_rows rows, one_status r.status)
  where
    one_status :
        (s : StatusValue)
        → (if is_new s then 1 else 0)
            + (if is_processing s then 1 else 0)
            + (if is_failed s then 1 else 0)
            + (if is_completed s then 1 else 0)
          ≡ 1
    one_status new = refl
    one_status processing = refl
    one_status completed = refl
    one_status failed = refl

-- With a worker or without one, the four queue counts of the health response add up to the number of
-- messages in the table.
pub counts_cover :
    (config : HealthSettings) (w : Option RunningWorker) (now : ℕ) (q : Messages)
    → let h = worker_health config w now q in
      h.queue_new_count + h.queue_processing_count + h.queue_failed_count + h.queue_completed_count
      ≡ length q.rows
unfolding worker_health get_queue_counts
counts_cover config none now q = counts_rows q.rows
counts_cover config (some w) now q = counts_rows q.rows

module _ (threshold timeout now : ℕ) where
  -- The thread lives, the last heartbeat is within the threshold, and the current record, if there is
  -- one, is within the submission timeout.
  abbrev pub IsLively : Bool → Option ℕ → Option ℕ → Type 0
  IsLively alive last started =
      (alive ≡ true)
      × ((at : ℕ) × (last ≡ some at) × (now - format_timestamp at * micros ≤ threshold * micros))
      × ((started ≡ none) ⊎ ((at : ℕ) × (started ≡ some at) × (now - at ≤ timeout * micros)))

  IsLively-of_healthy :
      (alive : Bool) (last started : Option ℕ)
      → worker_healthy threshold timeout alive (heartbeat_age now last) (since now started) ≡ true
      → IsLively alive last started
  unfolding worker_healthy
  IsLively-of_healthy false last started h = absurd (ground (arith, h))
  IsLively-of_healthy true none started h = absurd (ground (arith, h))
  IsLively-of_healthy true (some at) none h = (refl, (at, refl, ground (arith, h)), inl refl)
  IsLively-of_healthy true (some at) (some begun) h =
      (refl, (at, refl, ground (arith, h)), inr (begun, refl, ground (arith, h)))

  healthy_of_lively :
      (alive : Bool) (last started : Option ℕ)
      → IsLively alive last started
      → worker_healthy threshold timeout alive (heartbeat_age now last) (since now started) ≡ true
  unfolding worker_healthy
  healthy_of_lively alive last started (a, (at, e, k), inl n) =
      rw a (rw e (rw n (ground (arith, k))))
  healthy_of_lively alive last started (a, (at, e, k), inr (begun, s, l)) =
      rw a (rw e (rw s (ground (arith, k, l))))

abbrev both_tests : Bool → Bool → Bool → ReadinessState → HealthStatus
both_tests odoo healthy enabled s =
    if enabled && not (is_ready s)
    then degraded
    else if odoo && not healthy
    then degraded
    else status_ok

tests :
    (odoo healthy enabled : Bool) (s : ReadinessState)
    → both_tests odoo healthy enabled s ≡ status_ok
    → ((odoo ≡ false) ⊎ (healthy ≡ true)) × ((enabled ≡ false) ⊎ (s ≡ ready))
tests false healthy false s h = (inl refl, inl refl)
tests true true false s h = (inr refl, inl refl)
tests true false false s h = absurd (ground (arith, h))
tests false healthy true ready h = (inl refl, inr refl)
tests true true true ready h = (inr refl, inr refl)
tests true false true ready h = absurd (ground (arith, h))
tests odoo healthy true unknown h = absurd (ground (arith, h))
tests odoo healthy true not_ready h = absurd (ground (arith, h))
tests odoo healthy true disabled h = absurd (ground (arith, h))

tested :
    (odoo healthy enabled : Bool) (s : ReadinessState)
    → (odoo ≡ false) ⊎ (healthy ≡ true)
    → (enabled ≡ false) ⊎ (s ≡ ready)
    → both_tests odoo healthy enabled s ≡ status_ok
tested odoo healthy enabled s (inl a) (inl b) = rw a (rw b refl)
tested odoo healthy enabled s (inl a) (inr b) = rw a (rw b (ground arith))
tested odoo healthy enabled s (inr a) (inl b) = rw a (rw b (ground arith))
tested odoo healthy enabled s (inr a) (inr b) = rw a (rw b (ground arith))

-- The health status is "ok" exactly when Odoo is disabled or the worker's thread lives, its last heartbeat
-- is within the threshold and its current record within the submission timeout; and the readiness monitor
-- is disabled or READY.
pub ok_exactly :
    (config : HealthSettings) (mqtt : Bool) (w : RunningWorker) (r : ReadinessSnapshot)
    (d : DatabaseStatus) (now : ℕ) (q : Messages)
    → ((health config mqtt
          (worker_health config (some w) now q)
          (readiness_health config (some r))
          d).status
        ≡ status_ok)
      ↔ (((config.odoo_enabled ≡ false)
            ⊎ IsLively config.heartbeat_seconds w.submission_timeout now w.thread_alive
                w.state.last_loop_at w.state.current_record_started_at)
          × ((r.enabled ≡ false) ⊎ (r.state ≡ ready)))
unfolding health worker_health readiness_health health_snapshot
ok_exactly config mqtt w r d now q = (
  λ h.
      let (worker, monitor) = tests config.odoo_enabled healthy r.enabled r.state h in
      (seen worker, monitor),
  λ h. tested config.odoo_enabled healthy r.enabled r.state (shown h.0) h.1,
)
  where
    healthy : Bool
    healthy =
        worker_healthy config.heartbeat_seconds w.submission_timeout w.thread_alive
          (heartbeat_age now w.state.last_loop_at) (since now w.state.current_record_started_at)

    seen :
        (config.odoo_enabled ≡ false) ⊎ (healthy ≡ true)
        → (config.odoo_enabled ≡ false)
          ⊎ IsLively config.heartbeat_seconds w.submission_timeout now w.thread_alive
              w.state.last_loop_at w.state.current_record_started_at
    seen (inl off) = inl off
    seen (inr live) = inr (
        IsLively-of_healthy config.heartbeat_seconds w.submission_timeout now w.thread_alive
          w.state.last_loop_at w.state.current_record_started_at live)

    shown :
        (config.odoo_enabled ≡ false)
          ⊎ IsLively config.heartbeat_seconds w.submission_timeout now w.thread_alive
              w.state.last_loop_at w.state.current_record_started_at
        → (config.odoo_enabled ≡ false) ⊎ (healthy ≡ true)
    shown (inl off) = inl off
    shown (inr live) = inr (
        healthy_of_lively config.heartbeat_seconds w.submission_timeout now w.thread_alive
          w.state.last_loop_at w.state.current_record_started_at live)

-- A worker that is busy with one submission for longer than the heartbeat threshold is reported as not
-- healthy, although its thread lives and the submission is within its timeout: the heartbeat is written
-- when the record is begun and not again before it ends.
pub busy_is_unhealthy :
    (config : HealthSettings) (w : RunningWorker) (s : WorkerState) (i begun now : ℕ) (q : Messages)
    → w.thread_alive ≡ true
    → w.state ≡ begin_record i begun s
    → begun + config.heartbeat_seconds * micros < now
    → now ≤ begun + w.submission_timeout * micros
    → let h = worker_health config (some w) now q in
      (h.worker_healthy ≡ false) × (h.worker_current_message_id ≡ some i)
unfolding worker_health health_snapshot worker_healthy
busy_is_unhealthy config w s i begun now q live e past within = rw live (rw e (ground arith, refl))
