-- ===== src/Production/Upsert.antt =====
-- `_upsert_production_record_and_summary` and `_increment_daily_summary` of app/database.py.
use blackbear_edge_bridge.Prelude.{
  ℕ, suc, ◌+◌, String, Bool, true, false, ◌&&◌, Option, none, some, nat_eq, int_eq, ltb, leb, ◌==◌,
  ◌++◌, [], ◌∷◌, select_one, update, if◌then◌else◌,
}
use blackbear_edge_bridge.Time.{production_date, format_timestamp}
use blackbear_edge_bridge.Queue.Message.{completed, MessageRecord}
use blackbear_edge_bridge.Queue.Mark.{coalesce}
use blackbear_edge_bridge.Production.Tables.{
  ProductionRecord, DailySummary, Production, or_int, or_text, Metadata,
}

-- The arguments of `_upsert_production_record_and_summary`.
pub record Produced : Type 0 where
  pub source : MessageRecord
  pub completed_at : ℕ
  pub machine_id : String
  pub ack : String
  pub metadata : Metadata
  pub raw_odoo_response : String

-- the condition of the SELECT of `_increment_daily_summary`
abbrev pub same_group : Produced → DailySummary → Bool
same_group p s =
    nat_eq s.production_date (production_date p.completed_at)
    && (s.machine_id == p.machine_id)
    && (s.table_no == p.source.table_no)
    && (s.model == p.source.model)
    && int_eq (or_int s.customer_id) (or_int p.metadata.customer_id)
    && (or_text s.batch_number == or_text p.metadata.batch_number)
    && int_eq (or_int s.operator_id) (or_int p.metadata.operator_id)

abbrev pub new_summary : ℕ → Produced → ℕ → DailySummary
new_summary i p now = record {
  id = i;
  production_date = production_date p.completed_at;
  machine_id = p.machine_id;
  table_no = p.source.table_no;
  model = p.source.model;
  customer_id = p.metadata.customer_id;
  customer_name = p.metadata.customer_name;
  batch_number = p.metadata.batch_number;
  operator_id = p.metadata.operator_id;
  operator_name = p.metadata.operator_name;
  number_of_operators = p.metadata.number_of_operators;
  production_count = 1;
  first_ack = p.ack;
  last_ack = p.ack;
  first_completed_at = p.completed_at;
  last_completed_at = p.completed_at;
  created_at = format_timestamp now;
  updated_at = format_timestamp now;
}

-- UPDATE … WHERE id = ? of the row that was read: the firsts and lasts are computed from the row that
-- was read, the count and the names from the row that is written
abbrev pub incremented_from : DailySummary → Produced → ℕ → DailySummary → DailySummary
incremented_from row p now s =
    let earlier = ltb p.completed_at row.first_completed_at in
    let later = leb row.last_completed_at p.completed_at in
    record s {
      production_count = s.production_count + 1;
      first_ack = if earlier then p.ack else row.first_ack;
      last_ack = if later then p.ack else row.last_ack;
      first_completed_at = if earlier then p.completed_at else row.first_completed_at;
      last_completed_at = if later then p.completed_at else row.last_completed_at;
      customer_name = coalesce p.metadata.customer_name s.customer_name;
      operator_name = coalesce p.metadata.operator_name s.operator_name;
      number_of_operators = coalesce p.metadata.number_of_operators s.number_of_operators;
      updated_at = format_timestamp now;
    }

-- WHERE id = ?
abbrev pub summary_id : ℕ → DailySummary → Bool
summary_id i s = nat_eq s.id i

abbrev pub add_to_summary : Produced → ℕ → Option DailySummary → Production → Production
add_to_summary p now none d = record d {
  summaries = d.summaries ++ new_summary d.next_summary_id p now ∷ [];
  next_summary_id = suc d.next_summary_id;
}
add_to_summary p now (some row) d = record d {
  summaries = update (summary_id row.id) (incremented_from row p now) d.summaries;
}

unfoldable pub increment_daily_summary : Produced → ℕ → Production → Production
increment_daily_summary p now d = add_to_summary p now (select_one (same_group p) d.summaries) d

-- WHERE mqtt_message_id = ?
abbrev pub of_message : ℕ → ProductionRecord → Bool
of_message i r = nat_eq r.mqtt_message_id i

abbrev pub new_record : ℕ → Produced → ℕ → ProductionRecord
new_record i p now = record {
  id = i;
  mqtt_message_id = p.source.id;
  completed_at = p.completed_at;
  production_date = production_date p.completed_at;
  message_type = p.source.message_type;
  machine_id = p.machine_id;
  table_no = p.source.table_no;
  model = p.source.model;
  serial = p.source.serial;
  ack = p.ack;
  customer_id = p.metadata.customer_id;
  customer_name = p.metadata.customer_name;
  operator_id = p.metadata.operator_id;
  operator_name = p.metadata.operator_name;
  number_of_operators = p.metadata.number_of_operators;
  batch_number = p.metadata.batch_number;
  status = completed;
  raw_odoo_response = p.raw_odoo_response;
  created_at = format_timestamp now;
  summary_applied = false;
}

-- ON CONFLICT(mqtt_message_id) DO UPDATE SET: all but created_at and summary_applied
abbrev pub replaced_record : Produced → ProductionRecord → ProductionRecord
replaced_record p r = record (new_record r.id p r.created_at) {
  created_at = r.created_at;
  summary_applied = r.summary_applied;
}

abbrev pub upsert_record : Produced → ℕ → Option ProductionRecord → Production → Production
upsert_record p now none d = record d {
  records = d.records ++ new_record d.next_record_id p now ∷ [];
  next_record_id = suc d.next_record_id;
}
upsert_record p now (some existing) d = record d {
  records = update (of_message p.source.id) (replaced_record p) d.records;
}

-- `bool(existing and int(existing["summary_applied"] or 0))`
abbrev pub applied_flag : Option ProductionRecord → Bool
applied_flag none = false
applied_flag (some r) = r.summary_applied

abbrev pub applied_record : ProductionRecord → ProductionRecord
applied_record r = record r { summary_applied = true }

-- UPDATE production_records SET summary_applied = 1 WHERE mqtt_message_id = ?
abbrev pub mark_applied : ℕ → Production → Production
mark_applied i d = record d { records = update (of_message i) applied_record d.records }

-- `_production_summary_applied`
abbrev pub production_summary_applied : ℕ → Production → Bool
production_summary_applied i d = applied_flag (select_one (of_message i) d.records)

-- Whether the summary was incremented, and the tables after.
unfoldable pub upsert_production_record_and_summary : Produced → ℕ → Production → Bool × Production
unfolding increment_daily_summary
upsert_production_record_and_summary p now d =
    let existing = select_one (of_message p.source.id) d.records in
    let upserted = upsert_record p now existing d in
    if applied_flag existing
    then (false, upserted)
    else (true, mark_applied p.source.id (increment_daily_summary p now upserted))
