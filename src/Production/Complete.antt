-- ===== src/Production/Complete.antt =====
-- `mark_completed` and `reconcile_completed_production_records` of app/database.py, over the queue
-- and the production tables of one database.
use blackbear_edge_bridge.Prelude.{
  ℕ, ◌+◌, String, Bool, true, false, ◌&&◌, not, Option, none, some, List, [], ◌∷◌, ℤ, ◌==◌,
  is_nonpos, pos_part, select, select_one, take, if◌then◌else◌,
}
use blackbear_edge_bridge.Errors.{Result, ok, raise, message_not_found, transaction}
use blackbear_edge_bridge.Json.{Codec}
use blackbear_edge_bridge.Queue.Message.{is_completed, MessageRecord, Messages, has_id}
use blackbear_edge_bridge.Queue.Mark.{coalesce, Completion, complete_message}
use blackbear_edge_bridge.Production.Tables.{
  Production, Metadata, no_metadata, production_metadata_from_response,
}
use blackbear_edge_bridge.Production.Upsert.{
  Produced, production_summary_applied, upsert_production_record_and_summary,
}

pub record Database : Type 0 where
  pub messages : Messages
  pub production : Production

-- `if ack:`
abbrev pub given : Option String → Bool
given none = false
given (some a) = not (a == "")

-- the arguments that are given, and the metadata of the response for the others
abbrev pub filled : Completion → Metadata → Completion
filled c m = record c {
  customer_id = coalesce c.customer_id m.customer_id;
  customer_name = coalesce c.customer_name m.customer_name;
  operator_id = coalesce c.operator_id m.operator_id;
  operator_name = coalesce c.operator_name m.operator_name;
  number_of_operators = coalesce c.number_of_operators m.number_of_operators;
  batch_number = coalesce c.batch_number m.batch_number;
}

abbrev pub completion_metadata : Completion → Metadata
completion_metadata c = record {
  customer_id = c.customer_id;
  customer_name = c.customer_name;
  operator_id = c.operator_id;
  operator_name = c.operator_name;
  number_of_operators = c.number_of_operators;
  batch_number = c.batch_number;
}

-- IS NOT NULL
abbrev pub is_set {ℓ} : {A : Type ℓ} → Option A → Bool
is_set none = false
is_set (some a) = true

-- the values of a scanned row, which the WHERE clause has tested
abbrev pub values_of : Option ℕ → Option String → Option String → Option (ℕ × String × String)
values_of (some t) (some response) (some ack) = some (t, response, ack)
values_of _ _ _ = none

abbrev pub row_values : MessageRecord → Option (ℕ × String × String)
row_values m = values_of m.completed_at m.odoo_response m.ack

-- ReconciliationResult
pub record ReconciliationResult : Type 0 where
  pub scanned_rows : ℕ
  pub recovered_records : ℕ
  pub recovered_summaries : ℕ
  pub skipped_rows : ℕ

abbrev pub nothing_reconciled : ReconciliationResult
nothing_reconciled = record {
  scanned_rows = 0;
  recovered_records = 0;
  recovered_summaries = 0;
  skipped_rows = 0;
}

module _ (codec : Codec) where
  -- the completion as it is written
  abbrev pub written : Completion → Completion
  written c =
      filled c (
        if given c.ack
        then production_metadata_from_response codec c.odoo_response
        else no_metadata)

  abbrev pub produced_by : MessageRecord → String → Completion → String → Produced
  produced_by source machine_id c ack = record {
    source = source;
    completed_at = c.completed_at;
    machine_id = machine_id;
    ack = ack;
    metadata = completion_metadata c;
    raw_odoo_response = c.odoo_response;
  }

  -- `if ack: _upsert_production_record_and_summary(...)`
  abbrev pub record_ack :
      MessageRecord → String → Completion → ℕ → Option String → Production → Production
  record_ack source machine_id c now none d = d
  record_ack source machine_id c now (some a) d =
      if a == ""
      then d
      else (upsert_production_record_and_summary (produced_by source machine_id c a) now d).1

  -- after the UPDATE of the message
  abbrev pub after_update :
      MessageRecord
      → String
      → Completion
      → ℕ
      → Production
      → Result (Unit {0}) × Messages
      → Result (Unit {0}) × Database
  after_update source machine_id c now d (raise e, q) =
      (raise e, record { messages = q; production = d })
  after_update source machine_id c now d (ok u, q) =
      (ok u, record { messages = q; production = record_ack source machine_id c now c.ack d })

  abbrev pub complete_found :
      ℕ → Completion → String → ℕ → Option MessageRecord → Database → Result (Unit {0}) × Database
  complete_found i c machine_id now none db = (raise (message_not_found i), db)
  complete_found i c machine_id now (some source) db =
      after_update source machine_id (written c) now db.production
        (complete_message i (written c) db.messages)

  -- `machine_id` is the argument, or DEFAULT_MACHINE_ID; `now` is the time of the call
  unfoldable pub mark_completed :
      ℕ → Completion → String → ℕ → Database → Result (Unit {0}) × Database
  mark_completed i c machine_id now =
      transaction
        (λ db. complete_found i c machine_id now (select_one (has_id i) db.messages.rows) db)

  -- the WHERE clause: a COMPLETED message with its three values and no applied summary
  abbrev pub awaits_summary : Production → MessageRecord → Bool
  awaits_summary d m =
      is_completed m.status
      && is_set m.completed_at
      && is_set m.odoo_response
      && is_set m.ack
      && not (production_summary_applied m.id d)

  abbrev pub produced_again : MessageRecord → String → ℕ → String → String → Produced
  produced_again m machine_id t response ack = record {
    source = m;
    completed_at = t;
    machine_id = machine_id;
    ack = ack;
    metadata = production_metadata_from_response codec response;
    raw_odoo_response = response;
  }

  -- what one row adds to the result
  abbrev pub counted : Bool → Bool → ReconciliationResult → ReconciliationResult
  counted applied applied_before r = record r {
    scanned_rows = r.scanned_rows + 1;
    recovered_summaries = (if applied then r.recovered_summaries + 1 else r.recovered_summaries);
    recovered_records = (if applied_before then r.recovered_records else r.recovered_records + 1);
  }

  abbrev pub reconcile_values :
      String
      → ℕ
      → MessageRecord
      → Option (ℕ × String × String)
      → ReconciliationResult × Production
      → ReconciliationResult × Production
  reconcile_values machine_id now m none (r, d) = (r, d)
  reconcile_values machine_id now m (some (t, response, ack)) (r, d) =
      let before = production_summary_applied m.id d in
      let (applied, after) =
        upsert_production_record_and_summary (produced_again m machine_id t response ack) now d in
      (counted applied before r, after)

  -- `except Exception`, with nothing written
  abbrev pub skipped : ReconciliationResult → ReconciliationResult
  skipped r = record r { scanned_rows = r.scanned_rows + 1; skipped_rows = r.skipped_rows + 1 }

  -- `raises` says for which rows the upsert raises, at its first statement, which binds the values of the row
  module _ (raises : MessageRecord → Bool) where
    abbrev pub reconcile_row :
        String
        → ℕ
        → MessageRecord
        → ReconciliationResult × Production
        → ReconciliationResult × Production
    reconcile_row machine_id now m (r, d) =
        if raises m then (skipped r, d) else reconcile_values machine_id now m (row_values m) (r, d)

    abbrev pub reconcile_rows :
        String
        → ℕ
        → List MessageRecord
        → ReconciliationResult × Production
        → ReconciliationResult × Production
    reconcile_rows machine_id now [] s = s
    reconcile_rows machine_id now (m ∷ ms) s =
        reconcile_rows machine_id now ms (reconcile_row machine_id now m s)

    unfoldable pub reconcile_completed_production_records :
        String → ℤ → ℕ → Database → ReconciliationResult × Database
    reconcile_completed_production_records machine_id limit now db =
        if is_nonpos limit
        then (nothing_reconciled, db)
        else (let rows =
              take (pos_part limit) (select (awaits_summary db.production) db.messages.rows) in
            let (r, d) = reconcile_rows machine_id now rows (nothing_reconciled, db.production) in
            (r, record db { production = d }))
