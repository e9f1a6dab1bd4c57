-- ===== src/Dashboard/Examples.antt =====
-- A dashboard over two records and their summary.
use Prim.Native.String.{◌++◌}
use blackbear_edge_bridge.Prelude.{
  ◌≤◌, ◌≡◌, ◌+◌, refl, false, some, none, List, [], ◌∷◌, pos, All, count, length, min, select,
  nat_eq,
}
use blackbear_edge_bridge.Errors.{reject}
use blackbear_edge_bridge.Json.{Codec}
use blackbear_edge_bridge.Queue.Message.{completed, MessageRecord}
use blackbear_edge_bridge.Queue.Save.{Incoming, new_row}
use blackbear_edge_bridge.Production.Tables.{
  ProductionRecord, DailySummary, Production, no_production, no_metadata,
}
use blackbear_edge_bridge.Production.Upsert.{Produced, new_record, new_summary, applied_record}
use blackbear_edge_bridge.Production.Complete.{Database}
use blackbear_edge_bridge.Production.Balance.{applied}
use blackbear_edge_bridge.Production.Once.{reconcile, calls}
use blackbear_edge_bridge.Dashboard.Query.{
  Dates, no_filters, dashboard_filters, order_by, bounded_limit, newer, record_matches,
  query_recent_production_records, query_production_summary_totals,
}
use blackbear_edge_bridge.Dashboard.Newest.{InOrder, recent_are_newest}
use blackbear_edge_bridge.Dashboard.Totals.{total_counts_records}

-- all on one day
abbrev dates : Dates
dates = record { timestamp_text = λ t. "1970-01-01" ++ "T00:00:09"; date_text = λ d. "1970-01-01" }

abbrev incoming : Incoming
incoming = record {
  topic = "plc";
  raw_payload = "m";
  message_type = "MN";
  table_no = "T01";
  model = "AB";
  serial = "17";
}

abbrev produced : Produced
produced = record {
  source = record (new_row 1 "a" 5 incoming) { status = completed };
  completed_at = 9;
  machine_id = "BEB";
  ack = "A1";
  metadata = no_metadata;
  raw_odoo_response = "{}";
}

abbrev older : ProductionRecord
older = applied_record (new_record 1 produced 10)

abbrev later : ProductionRecord
later = record older { id = 2; mqtt_message_id = 2; completed_at = 12 }

abbrev summary : DailySummary
summary = record (new_summary 1 produced 10) { production_count = 2; last_completed_at = 12 }

abbrev production : Production
production = record {
  records = older ∷ later ∷ [];
  next_record_id = 3;
  summaries = summary ∷ [];
  next_summary_id = 2;
}

newest_first : query_recent_production_records dates no_filters (pos 1) production ≡ later ∷ []
unfolding query_recent_production_records bounded_limit dashboard_filters order_by
newest_first = refl

recent_are_newest_example :
    let rows = query_recent_production_records dates no_filters (pos 1) production in
    (left_out : List ProductionRecord) × (length rows
      ≡ min (bounded_limit (pos 1)) (count (record_matches dates no_filters) production.records))
    × (1 ≤ bounded_limit (pos 1))
    × (bounded_limit (pos 1) ≤ 500)
    × (count (λ r. nat_eq r.id 1) rows + count (λ r. nat_eq r.id 1) left_out
        ≡ count (λ r. nat_eq r.id 1) (select (record_matches dates no_filters) production.records))
    × InOrder newer rows
    × All (λ r. All (λ s. newer s r ≡ false) left_out) rows
recent_are_newest_example =
    recent_are_newest dates no_filters (pos 1) production (λ (r : ProductionRecord). nat_eq r.id 1)

abbrev codec : Codec
codec = record { loads = λ t. reject "Expecting value"; dumps = λ v. none }

abbrev answered : MessageRecord
answered = record (new_row 1 "a" 5 incoming) {
  status = completed;
  completed_at = some 9;
  odoo_response = some "{}";
  ack = some "A1";
}

abbrev database : Database
database = record {
  messages = record { rows = answered ∷ []; next_id = 2 };
  production = no_production;
}

total_counts_records_example :
    (query_production_summary_totals dates no_filters
      (calls codec
        (reconcile (λ m. false) "BEB" (pos 100) 20 ∷ [])
        database).production).production_count
    ≡ count applied
        (calls codec (reconcile (λ m. false) "BEB" (pos 100) 20 ∷ []) database).production.records
total_counts_records_example =
    total_counts_records dates codec (reconcile (λ m. false) "BEB" (pos 100) 20 ∷ []) database refl
