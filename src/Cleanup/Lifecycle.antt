-- ===== src/Cleanup/Lifecycle.antt =====
-- `SQLiteLifecycleManager` of app/sqlite_lifecycle.py: the reconciliation at the start, the cleanups
-- that its thread repeats, and the snapshot of the last one.
use blackbear_edge_bridge.Prelude.{
  ℕ, ◌*◌, String, Bool, Option, none, some, List, [], ◌∷◌, ℤ, pos_part, max, if◌then◌else◌,
}
use blackbear_edge_bridge.Errors.{Result, ok, raise}
use blackbear_edge_bridge.Time.{format_timestamp}
use blackbear_edge_bridge.Json.{Codec}
use blackbear_edge_bridge.Queue.Message.{MessageRecord}
use blackbear_edge_bridge.Production.Complete.{reconcile_completed_production_records}
use blackbear_edge_bridge.Cleanup.Delete.{
  CleanupResult, total_deleted_rows, SqliteFailure, Tables, cleanup_raw_operational_data,
}

pub record LifecycleSettings : Type 0 where
  pub machine_id : String
  pub retention_days : ℤ
  pub cleanup_enabled : Bool
  pub cleanup_interval_hours : ℤ
  pub cleanup_batch_size : ℤ
  pub vacuum_enabled : Bool
  pub reconcile_batch_size : ℤ

-- `SQLiteLifecycleSnapshot`, which are also the fields that the manager keeps
pub record SqliteLifecycleSnapshot : Type 0 where
  pub last_cleanup_at : Option ℕ
  pub last_cleanup_deleted_rows : Option ℕ
  pub last_cleanup_error : Option String

abbrev pub never_cleaned : SqliteLifecycleSnapshot
never_cleaned = record {
  last_cleanup_at = none;
  last_cleanup_deleted_rows = none;
  last_cleanup_error = none;
}

-- max(1, cleanup_interval_hours) * 3600
abbrev pub cleanup_interval_seconds : ℤ → ℕ
cleanup_interval_seconds hours = max 1 (pos_part hours) * 3600

-- one cleanup: when it begins, whether SQLite fails, and when its result is recorded
pub record CleanupRound : Type 0 where
  pub now : ℕ
  pub failure : SqliteFailure
  pub recorded : ℕ

-- the manager's fields and the database
pub record Lifecycle : Type 0 where
  pub snapshot : SqliteLifecycleSnapshot
  pub tables : Tables

module _ (settings : LifecycleSettings) where
  -- `_record_cleanup_result`
  abbrev pub record_cleanup_result : ℕ → CleanupResult → SqliteLifecycleSnapshot
  record_cleanup_result recorded r = record {
    last_cleanup_at = some (format_timestamp recorded);
    last_cleanup_deleted_rows = some (total_deleted_rows r);
    last_cleanup_error = r.error;
  }

  abbrev pub after_cleanup :
      ℕ → SqliteLifecycleSnapshot → Result CleanupResult × Tables → Result CleanupResult × Lifecycle
  after_cleanup recorded s (ok r, t) =
      (ok r, record { snapshot = record_cleanup_result recorded r; tables = t })
  after_cleanup recorded s (raise e, t) = (raise e, record { snapshot = s; tables = t })

  unfoldable pub cleanup_once : CleanupRound → Lifecycle → Result CleanupResult × Lifecycle
  cleanup_once round m = after_cleanup round.recorded m.snapshot (
      cleanup_raw_operational_data settings.retention_days settings.cleanup_batch_size
        settings.vacuum_enabled round.failure round.now m.tables)

  -- an exception ends the thread
  abbrev pub and_again :
      Result CleanupResult × Lifecycle
      → (Lifecycle → Result (Unit {0}) × Lifecycle)
      → Result (Unit {0}) × Lifecycle
  and_again (ok r, m) rest = rest m
  and_again (raise e, m) rest = (raise e, m)

  -- `_cleanup_loop`, over the rounds until it is stopped
  unfoldable pub cleanup_loop : List CleanupRound → Lifecycle → Result (Unit {0}) × Lifecycle
  cleanup_loop [] m = (ok tt, m)
  cleanup_loop (round ∷ rounds) m = and_again (cleanup_once round m) (cleanup_loop rounds)

  unfoldable pub reconcile_once : Codec → (MessageRecord → Bool) → ℕ → Lifecycle → Lifecycle
  reconcile_once codec skips now m = record m {
    tables = record m.tables {
      database =
          (reconcile_completed_production_records codec skips settings.machine_id
            settings.reconcile_batch_size now m.tables.database).1;
    };
  }

  -- `start`, and what its thread does
  unfoldable pub start :
      Codec
      → (MessageRecord → Bool)
      → ℕ
      → List CleanupRound
      → Lifecycle
      → Result (Unit {0}) × Lifecycle
  unfolding reconcile_once cleanup_loop
  start codec skips now rounds m =
      let m' = reconcile_once codec skips now m in
      if settings.cleanup_enabled then cleanup_loop rounds m' else (ok tt, m')
