-- ===== src/Cleanup/Examples.antt =====
-- Cleanups of two messages.
use blackbear_edge_bridge.Prelude.{
  ℕ, ◌≡◌, refl, String, true, some, [], ◌∷◌, arith, pos, ◌*◌, ◌≢◌, eq_iff,
}
use blackbear_edge_bridge.Queue.Message.{completed, MessageRecord, get_message_by_id}
use blackbear_edge_bridge.Queue.Save.{Incoming, new_row}
use blackbear_edge_bridge.Queue.WellFormed.{IsValid}
use blackbear_edge_bridge.Production.Tables.{no_production, no_metadata}
use blackbear_edge_bridge.Production.Upsert.{Produced, new_record, applied_record}
use blackbear_edge_bridge.Cleanup.Delete.{
  no_failure, Tables, message_key, command_key, record_key, cleanup_raw_operational_data,
}
use blackbear_edge_bridge.Cleanup.Bounded.{HasUniqueIds}
use blackbear_edge_bridge.Cleanup.Kept.{IsExpired, cleanup_keeps}
use blackbear_edge_bridge.Prelude.{List, ◌+◌, ap, column, select, Option, none, ℤ}
use blackbear_edge_bridge.Errors.{reject}
use blackbear_edge_bridge.Json.{Codec}
use blackbear_edge_bridge.Production.Tables.{ProductionRecord}
use blackbear_edge_bridge.Production.Complete.{awaits_summary}
use blackbear_edge_bridge.Cleanup.Delete.{transaction_failure}
use blackbear_edge_bridge.Cleanup.Recount.{IsDated, cleanup_waits}
use blackbear_edge_bridge.Cleanup.Lifecycle.{
  LifecycleSettings, CleanupRound, Lifecycle, never_cleaned,
}

abbrev incoming : Incoming
incoming = record {
  topic = "plc";
  raw_payload = "m";
  message_type = "MN";
  table_no = "T01";
  model = "AB";
  serial = "17";
}

abbrev old : MessageRecord
old = record (new_row 1 "a" 5 incoming) { status = completed; completed_at = some 9 }

abbrev recent : MessageRecord
recent = new_row 2 "b" 6 incoming

abbrev produced : Produced
produced = record {
  source = old;
  completed_at = 9;
  machine_id = "BEB";
  ack = "A1";
  metadata = no_metadata;
  raw_odoo_response = "{}";
}

abbrev tables : Tables
tables = record {
  database = record {
    messages = record { rows = old ∷ recent ∷ []; next_id = 3 };
    production = record no_production {
      records = applied_record (new_record 1 produced 10) ∷ [];
      next_record_id = 2;
    };
  };
  commands = record { rows = []; next_id = 1 };
}

b_not_a : ◌≢◌ {A = String} "b" "a"
b_not_a = ground (arith, eq_iff "b" "a")

messages-IsValid : IsValid tables.database.messages
messages-IsValid = record {
  ordered = (omega arith, (omega arith, omega arith));
  distinct = ((b_not_a, tt), (tt, tt));
}

messages-HasUniqueIds : HasUniqueIds message_key (old ∷ recent ∷ [])
messages-HasUniqueIds i = ground arith

records-HasUniqueIds : HasUniqueIds record_key tables.database.production.records
records-HasUniqueIds i = ground arith

commands-HasUniqueIds : HasUniqueIds command_key []
commands-HasUniqueIds i = omega arith

abbrev later : ℕ
later = 86400000000 * 40

at_id : get_message_by_id 2 tables.database.messages ≡ some recent
unfolding get_message_by_id
at_id = refl

recent_is_kept : ¬ IsExpired 30 later tables.database.production recent
recent_is_kept x = ground (arith, x.is_done)

cleanup_keeps_example :
    ((cleanup_raw_operational_data
        (pos 30)
        (pos 100)
        true
        no_failure
        later
        tables).1.database.production.summaries
      ≡ [])
    × (get_message_by_id 2
          (cleanup_raw_operational_data
            (pos 30)
            (pos 100)
            true
            no_failure
            later
            tables).1.database.messages
        ≡ some recent)
cleanup_keeps_example =
    cleanup_keeps (pos 30) (pos 100) true no_failure later tables recent messages-IsValid at_id
      recent_is_kept

abbrev codec : Codec
codec = record { loads = λ t. reject "Expecting value"; dumps = λ v. none }

old-IsDated : IsDated tables.database.production old
old-IsDated r at e s t =
    ground (arith, ap (λ (o : Option ProductionRecord). column record_time (to_list o)) e, t)
  where
    record_time : ProductionRecord → ℕ
    record_time r = r.completed_at

    to_list : Option ProductionRecord → List ProductionRecord
    to_list none = []
    to_list (some r) = r ∷ []

recent-IsDated : IsDated tables.database.production recent
recent-IsDated r at e s t = absurd (ground (arith, e))

cleanup_waits_example :
    let after = (cleanup_raw_operational_data (pos 30) (pos 100) true no_failure later tables).1 in
    select (awaits_summary codec after.database.production) after.database.messages.rows ≡ []
cleanup_waits_example =
    cleanup_waits codec (pos 30) (pos 100) true no_failure later tables messages-IsValid
      (omega arith, omega arith) (old-IsDated, (recent-IsDated, tt))

abbrev settings : ℤ → LifecycleSettings
settings retention_days = record {
  machine_id = "BEB";
  retention_days = retention_days;
  cleanup_enabled = true;
  cleanup_interval_hours = pos 24;
  cleanup_batch_size = pos 100;
  vacuum_enabled = true;
  reconcile_batch_size = pos 100;
}

abbrev manager : Lifecycle
manager = record { snapshot = never_cleaned; tables = tables }

abbrev locked : CleanupRound
locked = record {
  now = later;
  failure = transaction_failure "database is locked";
  recorded = later + 5;
}

abbrev quiet : CleanupRound
quiet = record { now = later; failure = no_failure; recorded = later + 9 }
