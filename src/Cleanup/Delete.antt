-- ===== src/Cleanup/Delete.antt =====
-- `cleanup_raw_operational_data` of app/database.py, on the three tables that it deletes from.
-- Whether SQLite fails is a parameter of a call.
use blackbear_edge_bridge.Prelude.{
  ℕ, ◌+◌, ◌-◌, ◌*◌, String, Bool, true, false, ◌&&◌, not, Option, none, some, List, ℤ, is_nonpos,
  is_neg, pos_part, ltb, nat_eq, select, take, delete, count, column, if◌then◌else◌,
}
use blackbear_edge_bridge.Errors.{
  Result, ok, raise, negative_retention, date_overflow, database_error,
}
use blackbear_edge_bridge.Time.{micros, format_timestamp}
use blackbear_edge_bridge.Queue.Message.{is_completed, MessageRecord}
use blackbear_edge_bridge.Queue.Claim.{id_in}
use blackbear_edge_bridge.Production.Tables.{ProductionRecord, Production}
use blackbear_edge_bridge.Production.Upsert.{production_summary_applied}
use blackbear_edge_bridge.Production.Complete.{Database}
use blackbear_edge_bridge.Api.Commands.{ApiCommandStatus, received, ApiCommandRecord, ApiCommands}

pub record CleanupResult : Type 0 where
  pub deleted_mqtt_messages : ℕ
  pub deleted_api_commands : ℕ
  pub deleted_production_records : ℕ
  pub vacuum_ran : Bool
  pub error : Option String

-- `total_deleted_rows`
abbrev pub total_deleted_rows : CleanupResult → ℕ
total_deleted_rows r =
    r.deleted_mqtt_messages + r.deleted_api_commands + r.deleted_production_records

-- whether SQLite raises, with its text: in `initialize_database`, in the transaction of the deletions, or
-- in VACUUM when it runs
pub data SqliteFailure : Type 0 where
  no_failure : SqliteFailure
  initialization_failure : String → SqliteFailure
  transaction_failure : String → SqliteFailure
  vacuum_failure : String → SqliteFailure

-- CleanupResult(0, 0, 0, False, …)
abbrev pub nothing_deleted : Option String → CleanupResult
nothing_deleted error = record {
  deleted_mqtt_messages = 0;
  deleted_api_commands = 0;
  deleted_production_records = 0;
  vacuum_ran = false;
  error = error;
}

pub record Tables : Type 0 where
  pub database : Database
  pub commands : ApiCommands

-- completed_at < ?, which NULL does not satisfy
abbrev pub completed_before : ℕ → Option ℕ → Bool
completed_before cutoff none = false
completed_before cutoff (some at) = ltb at cutoff

-- a COMPLETED message before the cutoff, with a record that is summarized
abbrev pub old_message : ℕ → Production → MessageRecord → Bool
old_message cutoff d m =
    is_completed m.status
    && completed_before cutoff m.completed_at
    && production_summary_applied m.id d

-- status IN ('PUBLISHED', 'FAILED', 'REJECTED', 'DUPLICATE')
abbrev pub is_final : ApiCommandStatus → Bool
is_final received = false
is_final _ = true

abbrev pub old_command : ℕ → ApiCommandRecord → Bool
old_command cutoff r = is_final r.status && ltb r.received_at cutoff

abbrev pub old_record : ℕ → ProductionRecord → Bool
old_record cutoff r = r.summary_applied && ltb r.completed_at cutoff

module _ {ℓ} {A : Type ℓ} (key : A → ℕ) where
  -- id IN (SELECT id … WHERE p ORDER BY id ASC LIMIT n)
  abbrev pub among_first : ℕ → (A → Bool) → List A → A → Bool
  among_first n p rows r = id_in (column key (take n (select p rows))) (key r)

  -- the row count of the DELETE, and the rows after
  unfoldable pub delete_first : ℕ → (A → Bool) → List A → ℕ × List A
  delete_first n p rows = (count (among_first n p rows) rows, delete (among_first n p rows) rows)

abbrev pub message_key : MessageRecord → ℕ
message_key m = m.id

abbrev pub command_key : ApiCommandRecord → ℕ
command_key r = r.id

abbrev pub record_key : ProductionRecord → ℕ
record_key r = r.id

-- now - timedelta(days=retention_days)
abbrev pub cutoff_of : ℕ → ℕ → ℕ
cutoff_of now retention_days = format_timestamp (now - retention_days * 86400 * micros)

-- from datetime.min to the epoch, in microseconds
abbrev pub years_before_epoch : ℕ
years_before_epoch = 62135596800 * micros

-- The cutoff would be before the first year. A cutoff before the epoch is 0: no stored time is before it.
abbrev pub cutoff_overflows : ℕ → ℕ → Bool
cutoff_overflows now retention_days =
    ltb (now + years_before_epoch) (retention_days * 86400 * micros)

-- the three DELETEs, in the order and with the remaining batches of the code
unfoldable pub cleanup_tables : ℕ → ℕ → Bool → Tables → CleanupResult × Tables
cleanup_tables cutoff batch vacuum t =
    let d = t.database.production in
    let (n, messages) =
      delete_first message_key batch (old_message cutoff d) t.database.messages.rows in
    let (k, commands) = delete_first command_key (batch - n) (old_command cutoff) t.commands.rows in
    let (j, records) = delete_first record_key (batch - n - k) (old_record cutoff) d.records in
    (
      record {
        deleted_mqtt_messages = n;
        deleted_api_commands = k;
        deleted_production_records = j;
        vacuum_ran = vacuum && not (nat_eq (n + k + j) 0);
        error = none;
      },
      record {
        database = record {
          messages = record t.database.messages { rows = messages };
          production = record d { records = records };
        };
        commands = record t.commands { rows = commands };
      },
    )

-- the `try` around the transaction and VACUUM
abbrev pub guarded : SqliteFailure → CleanupResult × Tables → Tables → Result CleanupResult × Tables
guarded no_failure (r, t') t = (ok r, t')
guarded (initialization_failure text) (r, t') t = (raise (database_error text), t)
guarded (transaction_failure text) (r, t') t = (ok (nothing_deleted (some text)), t)
guarded (vacuum_failure text) (r, t') t =
    (ok (if r.vacuum_ran then nothing_deleted (some text) else r), t')

-- `initialize_database`, which is outside the `try`
abbrev pub initialized :
    SqliteFailure → Tables → Result CleanupResult × Tables → Result CleanupResult × Tables
initialized (initialization_failure text) t rest = (raise (database_error text), t)
initialized _ t rest = rest

unfoldable pub cleanup_raw_operational_data :
    ℤ → ℤ → Bool → SqliteFailure → ℕ → Tables → Result CleanupResult × Tables
cleanup_raw_operational_data retention_days batch_size vacuum failure now t =
    initialized failure t (
      if is_neg retention_days
      then (raise negative_retention, t)
      else if is_nonpos batch_size
      then (ok (nothing_deleted none), t)
      else if cutoff_overflows now (pos_part retention_days)
      then (raise date_overflow, t)
      else guarded failure
          (cleanup_tables (cutoff_of now (pos_part retention_days)) (pos_part batch_size) vacuum t)
          t)
