-- ===== src/Health/Endpoint.antt =====
-- `health`, `_worker_health` and `_readiness_health` of app/api.py, and `health_snapshot` of
-- app/queue_worker.py.
use blackbear_edge_bridge.Prelude.{
  ℕ, ◌-◌, ◌*◌, Bool, true, false, not, ◌&&◌, Option, none, some, if◌then◌else◌,
}
use blackbear_edge_bridge.Time.{micros, format_timestamp}
use blackbear_edge_bridge.Queue.Message.{new, processing, failed, completed, Messages}
use blackbear_edge_bridge.Queue.Mark.{get_queue_counts}
use blackbear_edge_bridge.Worker.Process.{WorkerState}
use blackbear_edge_bridge.Worker.Round.{worker_healthy}
use blackbear_edge_bridge.Readiness.Monitor.{
  ReadinessState, unknown, ready, disabled, ReadinessSnapshot,
}
use blackbear_edge_bridge.Health.Status.{DatabaseStatus}

-- the settings that the endpoint reads; the seconds are not negative
pub record HealthSettings : Type 0 where
  pub odoo_enabled : Bool
  pub api_enabled : Bool
  pub heartbeat_seconds : ℕ
  pub ready_enabled : Bool
  pub ready_check_timeout : ℕ

pub record WorkerHealth : Type 0 where
  pub worker_running : Bool
  pub worker_healthy : Bool
  pub worker_last_heartbeat : Option ℕ
  pub worker_current_message_id : Option ℕ
  -- microseconds
  pub worker_current_processing : Option ℕ
  pub queue_new_count : ℕ
  pub queue_processing_count : ℕ
  pub queue_failed_count : ℕ
  pub queue_completed_count : ℕ

-- the time since an instant, which is not negative; `-` stops at 0
abbrev pub since : ℕ → Option ℕ → Option ℕ
since now none = none
since now (some at) = some (now - at)

-- the time of the last heartbeat as it is shown, in whole seconds
abbrev pub shown_time : Option ℕ → Option ℕ
shown_time none = none
shown_time (some at) = some (format_timestamp at)

-- the age of the last heartbeat, which is parsed from the text that is shown
abbrev pub heartbeat_age : ℕ → Option ℕ → Option ℕ
heartbeat_age now none = none
heartbeat_age now (some at) = some (now - format_timestamp at * micros)

-- `health_snapshot`, with `state_snapshot`, at one time
unfoldable pub health_snapshot : ℕ → ℕ → Bool → ℕ → WorkerState → Messages → WorkerHealth
unfolding worker_healthy
health_snapshot threshold submission_timeout alive now s q =
    let current = since now s.current_record_started_at in
    record {
      worker_running = alive;
      worker_healthy =
          worker_healthy threshold submission_timeout alive (heartbeat_age now s.last_loop_at)
            current;
      worker_last_heartbeat = shown_time s.last_loop_at;
      worker_current_message_id = s.current_record_id;
      worker_current_processing = current;
      queue_new_count = get_queue_counts q new;
      queue_processing_count = get_queue_counts q processing;
      queue_failed_count = get_queue_counts q failed;
      queue_completed_count = get_queue_counts q completed;
    }

-- the queue worker, when there is one
pub record RunningWorker : Type 0 where
  pub thread_alive : Bool
  pub submission_timeout : ℕ
  pub state : WorkerState

abbrev pub no_worker_health : HealthSettings → Messages → WorkerHealth
no_worker_health config q = record {
  worker_running = false;
  worker_healthy = not config.odoo_enabled;
  worker_last_heartbeat = none;
  worker_current_message_id = none;
  worker_current_processing = none;
  queue_new_count = get_queue_counts q new;
  queue_processing_count = get_queue_counts q processing;
  queue_failed_count = get_queue_counts q failed;
  queue_completed_count = get_queue_counts q completed;
}

unfoldable pub worker_health : HealthSettings → Option RunningWorker → ℕ → Messages → WorkerHealth
unfolding health_snapshot
worker_health config none now q = no_worker_health config q
worker_health config (some w) now q =
    health_snapshot config.heartbeat_seconds w.submission_timeout w.thread_alive now w.state q

-- with no monitor, the state that the settings give
unfoldable pub readiness_health : HealthSettings → Option ReadinessSnapshot → ReadinessSnapshot
readiness_health config (some s) = s
readiness_health config none = record {
  enabled = config.ready_enabled;
  state = if config.ready_enabled then unknown else disabled;
  check_timeout_seconds = config.ready_check_timeout;
  last_check_at = none;
  last_success_at = none;
  last_failure_at = none;
  last_published_at = none;
  last_error = none;
  disconnect_elapsed = none;
  recovery_elapsed = none;
}

abbrev pub is_ready : ReadinessState → Bool
is_ready ready = true
is_ready _ = false

pub data HealthStatus : Type 0 where
  status_ok degraded : HealthStatus

pub record Health : Type 0 where
  pub status : HealthStatus
  pub mqtt_connected : Bool
  pub odoo_enabled : Bool
  pub api_enabled : Bool
  pub worker : WorkerHealth
  pub readiness : ReadinessSnapshot
  pub database : DatabaseStatus

-- the two tests, one after the other
unfoldable pub health :
    HealthSettings → Bool → WorkerHealth → ReadinessSnapshot → DatabaseStatus → Health
health config mqtt_connected w r d =
    let after_worker =
      if config.odoo_enabled && not w.worker_healthy then degraded else status_ok in
    record {
      status = if r.enabled && not (is_ready r.state) then degraded else after_worker;
      mqtt_connected = mqtt_connected;
      odoo_enabled = config.odoo_enabled;
      api_enabled = config.api_enabled;
      worker = w;
      readiness = r;
      database = d;
    }
