-- ===== src/Health/Examples.antt =====
-- The health of a bridge with one message.
use blackbear_edge_bridge.Prelude.{◌*◌, ◌≡◌, ◌⊎◌, ◌↔◌, refl, true, false, some, none, [], ◌∷◌, pos}
use blackbear_edge_bridge.Time.{micros}
use blackbear_edge_bridge.Queue.Message.{Messages}
use blackbear_edge_bridge.Queue.Save.{Incoming, new_row}
use blackbear_edge_bridge.Production.Tables.{no_production}
use blackbear_edge_bridge.Cleanup.Lifecycle.{never_cleaned}
use blackbear_edge_bridge.Worker.Process.{idle, begin_record}
use blackbear_edge_bridge.Readiness.Monitor.{ready, ReadinessSnapshot}
use blackbear_edge_bridge.Health.Status.{
  DatabaseFile, DatabaseStatus, HealthRead, fresh_status, database_health,
}
use blackbear_edge_bridge.Health.Caching.{cache_after}
use blackbear_edge_bridge.Health.Endpoint.{
  HealthSettings, RunningWorker, worker_health, readiness_health, health, status_ok,
}
use blackbear_edge_bridge.Health.Degraded.{IsLively, ok_exactly}

abbrev incoming : Incoming
incoming = record {
  topic = "plc";
  raw_payload = "m";
  message_type = "MN";
  table_no = "T01";
  model = "AB";
  serial = "17";
}

abbrev messages : Messages
messages = record { rows = new_row 1 "a" 5 incoming ∷ []; next_id = 2 }

abbrev file : DatabaseFile
file = record { size_bytes = 4096; page_count = 1; page_size = 4096; freelist_count = 0 }

abbrev first_read : HealthRead
first_read = record {
  now = 10 * micros;
  stored_at = 11 * micros;
  file = file;
  lifecycle = some never_cleaned;
  tables = record {
    database = record { messages = messages; production = no_production };
    commands = record { rows = []; next_id = 1 };
  };
}

-- 20 seconds later, with a table that is empty
abbrev second_read : HealthRead
second_read = record first_read {
  now = 30 * micros;
  tables = record {
    database = record { messages = record { rows = []; next_id = 2 }; production = no_production };
    commands = record { rows = []; next_id = 1 };
  };
}

-- the second answer is the first one's status
from_cache :
    (database_health (pos 30) true second_read (cache_after (pos 30) true (first_read ∷ []))).0
    ≡ fresh_status (pos 30) true first_read
unfolding database_health
from_cache = refl

abbrev config : HealthSettings
config = record {
  odoo_enabled = true;
  api_enabled = true;
  heartbeat_seconds = 60;
  ready_enabled = true;
  ready_check_timeout = 3;
}

abbrev busy : RunningWorker
busy = record {
  thread_alive = true;
  submission_timeout = 90;
  state = begin_record 1 (100 * micros) idle;
}

abbrev announced : ReadinessSnapshot
announced = record {
  enabled = true;
  state = ready;
  check_timeout_seconds = 3;
  last_check_at = some 99;
  last_success_at = some 99;
  last_failure_at = none;
  last_published_at = some 90;
  last_error = none;
  disconnect_elapsed = none;
  recovery_elapsed = none;
}

abbrev status : DatabaseStatus
status = fresh_status (pos 30) true first_read

ok_exactly_example :
    ((health config true
        (worker_health config (some busy) (150 * micros) messages)
        (readiness_health config (some announced))
        status).status
      ≡ status_ok)
    ↔ (((true ≡ false)
          ⊎ IsLively 60 90 (150 * micros) true (some (100 * micros)) (some (100 * micros)))
        × ((true ≡ false) ⊎ (ready ≡ ready)))
ok_exactly_example = ok_exactly config true busy announced status (150 * micros) messages
