-- ===== src/Production/Examples.antt =====
-- Completions and reconciliations on concrete messages.
use blackbear_edge_bridge.Prelude.{
  All, String, Bool, false, count, length, nat_eq, ◌≡◌, ◌⊎◌, refl, true, none, some, [], ◌∷◌, pos,
  arith, select,
}
use blackbear_edge_bridge.Errors.{ok, raise, message_not_found, reject}
use blackbear_edge_bridge.Json.{Codec}
use blackbear_edge_bridge.Queue.Message.{completed, MessageRecord, get_message_by_id}
use blackbear_edge_bridge.Queue.Save.{Incoming, new_row}
use blackbear_edge_bridge.Queue.Mark.{Completion, completed_row}
use blackbear_edge_bridge.Production.Tables.{no_production, no_metadata}
use blackbear_edge_bridge.Production.Upsert.{Produced}
use blackbear_edge_bridge.Production.Complete.{
  Database, given, mark_completed, awaits_summary, reconcile_completed_production_records,
}
use blackbear_edge_bridge.Production.Balance.{IsBalanced}
use blackbear_edge_bridge.Production.Reconcile.{reconcile-All}
use blackbear_edge_bridge.Production.Recorded.{IsRecorded}
use blackbear_edge_bridge.Production.Once.{
  completed_or_unchanged, complete, reconcile, calls, calls-IsBalanced,
}

-- a decoder of no text
abbrev no_text : Codec
no_text = record { loads = λ t. reject "Expecting value"; dumps = λ v. some "null" }

abbrev incoming : Incoming
incoming = record {
  topic = "plc";
  raw_payload = "{}";
  message_type = "MN";
  table_no = "T01";
  model = "AB";
  serial = "17";
}

abbrev completion : Completion
completion = record {
  completed_at = 90000;
  odoo_response = "{}";
  ack = some "A1";
  customer_id = some (pos 4);
  customer_name = none;
  operator_id = none;
  operator_name = none;
  number_of_operators = none;
  batch_number = some "B7";
}

abbrev one_message : Database
one_message = record {
  messages = record { rows = new_row 1 "h" 5 incoming ∷ []; next_id = 2 };
  production = no_production;
}

abbrev one_completed : Database
one_completed = record {
  messages = record {
    rows = completed_row completion (new_row 1 "h" 5 incoming) ∷ [];
    next_id = 2;
  };
  production = no_production;
}

no_production-IsBalanced : IsBalanced no_production
no_production-IsBalanced = record { ids = omega arith; unique = λ i. omega arith; balance = refl }

completed_or_unchanged_example :
    ((mark_completed no_text 1 completion "BEB" 90000000000 one_message).0
        ≡ raise (message_not_found 1))
      × ((mark_completed no_text 1 completion "BEB" 90000000000 one_message).1 ≡ one_message)
    ⊎ (((mark_completed no_text 1 completion "BEB" 90000000000 one_message).0 ≡ ok tt)
        × ((m : MessageRecord) × (get_message_by_id 1
                (mark_completed no_text 1 completion "BEB" 90000000000 one_message).1.messages
              ≡ some m)
            × (m.status ≡ completed)
            × (m.ack ≡ some "A1"))
        × (((given (some "A1") ≡ false)
              × ((mark_completed no_text 1 completion "BEB" 90000000000 one_message).1.production
                  ≡ no_production))
            ⊎ ((ack : String) × (some "A1" ≡ some ack)
                × IsRecorded 1 completion.completed_at ack completion.odoo_response no_production
                    (mark_completed no_text 1 completion "BEB" 90000000000
                      one_message).1.production)))
completed_or_unchanged_example =
    completed_or_unchanged no_text 1 completion "BEB" 90000000000 one_message
      no_production-IsBalanced

calls-IsBalanced_example :
    IsBalanced
      (calls no_text
        (complete 1 completion "BEB" 90000000000
          ∷ reconcile (λ m. false) "BEB" (pos 100) 90001000000
          ∷ [])
        one_message).production
calls-IsBalanced_example =
    calls-IsBalanced no_text
      (complete 1 completion "BEB" 90000000000
        ∷ reconcile (λ m. false) "BEB" (pos 100) 90001000000
        ∷ [])
      one_message no_production-IsBalanced

abbrev skips_seventh : MessageRecord → Bool
skips_seventh m = nat_eq m.id 7

abbrev produced : Produced
produced = record {
  source = new_row 1 "h" 5 incoming;
  completed_at = 90000;
  machine_id = "BEB";
  ack = "A1";
  metadata = no_metadata;
  raw_odoo_response = "{}";
}

reconcile-All_example :
    let waiting = select (awaits_summary no_text no_production) one_completed.messages.rows in
    let (result, after) =
      reconcile_completed_production_records no_text skips_seventh "BEB" (pos 5) 8 one_completed in
    (result.scanned_rows ≡ length waiting)
    × (result.skipped_rows ≡ count skips_seventh waiting)
    × All
        (λ m. skips_seventh m ≡ true)
        (select (awaits_summary no_text after.production) after.messages.rows)
reconcile-All_example =
    reconcile-All no_text skips_seventh "BEB" (pos 5) 8 one_completed refl (omega arith)
