-- ===== src/Health/Status.antt =====
-- `get_database_status` of app/database.py and `_database_health` of app/api.py, with its cache. What
-- the PRAGMAs and the file system answer is a parameter.
use blackbear_edge_bridge.Prelude.{
  ℕ, ◌+◌, ◌*◌, String, Bool, Option, none, some, List, ◌++◌, ℤ, length, column, ltb, if◌then◌else◌,
}
use blackbear_edge_bridge.Time.{micros}
use blackbear_edge_bridge.Queue.Message.{MessageRecord}
use blackbear_edge_bridge.Production.Tables.{ProductionRecord}
use blackbear_edge_bridge.Api.Commands.{ApiCommandRecord}
use blackbear_edge_bridge.Cleanup.Delete.{Tables}
use blackbear_edge_bridge.Cleanup.Lifecycle.{SqliteLifecycleSnapshot, never_cleaned}
use blackbear_edge_bridge.Dashboard.Query.{least}

-- st_size, PRAGMA page_count, page_size and freelist_count
pub record DatabaseFile : Type 0 where
  pub size_bytes : ℕ
  pub page_count : ℕ
  pub page_size : ℕ
  pub freelist_count : ℕ

pub record DatabaseStatus : Type 0 where
  pub file : DatabaseFile
  pub production_records_count : ℕ
  pub daily_summary_count : ℕ
  pub oldest_raw_record_at : Option ℕ
  pub retention_days : ℤ
  pub cleanup_enabled : Bool
  pub last_cleanup_at : Option ℕ
  pub last_cleanup_deleted_rows : Option ℕ
  pub last_cleanup_error : Option String

abbrev itself : ℕ → ℕ
itself n = n

-- the UNION ALL of the three columns, none of which is NULL
abbrev pub raw_times : Tables → List ℕ
raw_times t =
    column (λ (m : MessageRecord). m.received_at) t.database.messages.rows
    ++ (column (λ (r : ApiCommandRecord). r.received_at) t.commands.rows
        ++ column (λ (r : ProductionRecord). r.completed_at) t.database.production.records)

unfoldable pub get_database_status :
    DatabaseFile → ℤ → Bool → SqliteLifecycleSnapshot → Tables → DatabaseStatus
get_database_status file retention_days cleanup_enabled s t = record {
  file = file;
  production_records_count = length t.database.production.records;
  daily_summary_count = length t.database.production.summaries;
  oldest_raw_record_at = least itself (raw_times t);
  retention_days = retention_days;
  cleanup_enabled = cleanup_enabled;
  last_cleanup_at = s.last_cleanup_at;
  last_cleanup_deleted_rows = s.last_cleanup_deleted_rows;
  last_cleanup_error = s.last_cleanup_error;
}

-- `cache`, with `expires_at` on the monotonic clock
pub record HealthCache : Type 0 where
  pub expires_at : ℕ
  pub value : Option DatabaseStatus

abbrev pub empty_cache : HealthCache
empty_cache = record { expires_at = 0; value = none }

-- DATABASE_HEALTH_CACHE_SECONDS
abbrev pub cache_time : ℕ
cache_time = 30 * micros

abbrev pub cached_value : Option DatabaseStatus → ℕ → ℕ → Option DatabaseStatus
cached_value none expires_at now = none
cached_value (some value) expires_at now = if ltb now expires_at then some value else none

-- one call: the monotonic clock at its start and when the value is stored, the database and the snapshot of
-- the lifecycle manager, if there is one, when they are read
pub record HealthRead : Type 0 where
  pub now : ℕ
  pub stored_at : ℕ
  pub file : DatabaseFile
  pub lifecycle : Option SqliteLifecycleSnapshot
  pub tables : Tables

abbrev pub last_cleanup : Option SqliteLifecycleSnapshot → SqliteLifecycleSnapshot
last_cleanup none = never_cleaned
last_cleanup (some s) = s

abbrev pub fresh_status : ℤ → Bool → HealthRead → DatabaseStatus
fresh_status retention_days cleanup_enabled r =
    get_database_status r.file retention_days cleanup_enabled (last_cleanup r.lifecycle) r.tables

abbrev pub answer_or_read :
    ℤ → Bool → HealthRead → Option DatabaseStatus → HealthCache → DatabaseStatus × HealthCache
answer_or_read retention_days cleanup_enabled r (some value) cache = (value, cache)
answer_or_read retention_days cleanup_enabled r none cache =
    let value = fresh_status retention_days cleanup_enabled r in
    (value, record { expires_at = r.stored_at + cache_time; value = some value })

unfoldable pub database_health : ℤ → Bool → HealthRead → HealthCache → DatabaseStatus × HealthCache
database_health retention_days cleanup_enabled r cache =
    answer_or_read retention_days cleanup_enabled r
      (cached_value cache.value cache.expires_at r.now) cache
