-- ===== src/Queue/Examples.antt =====
-- The queue on concrete messages.
use blackbear_edge_bridge.Prelude.{
  ℕ, ◌+◌, ◌≤◌, ◌≡◌, refl, String, true, false, none, some, List, [], ◌∷◌, ◌++◌, pos, arith, ◌≢◌,
  eq_iff,
}
use blackbear_edge_bridge.Errors.{ok}
use blackbear_edge_bridge.Queue.Message.{
  SavedMessage, MessageRecord, Messages, empty, get_message_by_id,
}
use blackbear_edge_bridge.Queue.Save.{Incoming, new_row, save_message}
use blackbear_edge_bridge.Queue.Claim.{is_claimable, claimed, claim_pending_messages, id_in, ids}
use blackbear_edge_bridge.Queue.Chosen.{take_first, change_first}
use blackbear_edge_bridge.Queue.ClaimOrder.{claim-eq-one_pass, claim_claim}
use blackbear_edge_bridge.Queue.Mark.{mark_failed}
use blackbear_edge_bridge.Queue.Operations.{Operation, claim, save, recover, replay, run}
use blackbear_edge_bridge.Queue.Exhausted.{ExhaustedAt}
use blackbear_edge_bridge.Queue.Retries.{final_failure_stays}
use blackbear_edge_bridge.Queue.Saving.{save_again}
use blackbear_edge_bridge.Queue.Throttle.{replays, replays_in_window}
use blackbear_edge_bridge.Queue.Writers.{
  Write, operation, set_status, fail_with, delete_old, writes, writes-IsValid,
}
use blackbear_edge_bridge.Production.Tables.{no_production}
use blackbear_edge_bridge.Queue.WellFormed.{IsValid, IsValid-empty}

-- any function will do for the hash
abbrev identity : String → String
identity t = t

abbrev printed : Incoming
printed = record {
  topic = "plc";
  raw_payload = "{\"MN\": \"AB P001 17T01\"}";
  message_type = "MN";
  table_no = "T01";
  model = "AB P001";
  serial = "17";
}

abbrev packed : Incoming
packed = record {
  topic = "plc";
  raw_payload = "{\"MP\": \"AB P001 18T02\"}";
  message_type = "MP";
  table_no = "T02";
  model = "AB P001";
  serial = "18";
}

abbrev row_at : ℕ → MessageRecord
row_at i = new_row i "h" 5 printed

abbrev two_rows : Messages
two_rows = record { rows = new_row 1 "a" 5 printed ∷ new_row 2 "b" 6 packed ∷ []; next_id = 3 }

b_not_a : ◌≢◌ {A = String} "b" "a"
b_not_a = ground (arith, eq_iff "b" "a")

two_rows-IsValid : IsValid two_rows
two_rows-IsValid = record {
  ordered = (omega arith, (omega arith, omega arith));
  distinct = ((b_not_a, tt), (tt, tt));
}

save_again_example :
    (s : SavedMessage) × ((save_message identity 9 printed empty).0 ≡ ok s)
    × (save_message identity 11 printed (save_message identity 9 printed empty).1
        ≡ (ok (record s { inserted = false }), (save_message identity 9 printed empty).1))
save_again_example = save_again identity 9 11 printed printed empty refl refl

claim-eq-one_pass_example : claim_pending_messages (pos 1) (pos 10) 8000000 two_rows ≡ (
  take_first 1 (is_claimable (pos 10)) (claimed 8) two_rows.rows,
  record two_rows { rows = change_first 1 (is_claimable (pos 10)) (claimed 8) two_rows.rows },
)
claim-eq-one_pass_example = claim-eq-one_pass (pos 1) (pos 10) 8000000 two_rows two_rows-IsValid

claim_claim_example :
    ids (claim_pending_messages (pos 1) (pos 10) 8000000 two_rows).0
      ++ ids
          (claim_pending_messages
            (pos 1)
            (pos 10)
            9000000
            (claim_pending_messages (pos 1) (pos 10) 8000000 two_rows).1).0
    ≡ 1 ∷ 2 ∷ []
claim_claim_example = claim_claim (pos 1) (pos 1) (pos 10) 8000000 9000000 two_rows two_rows-IsValid

abbrev traffic : List Operation
traffic =
    save 9000000 printed
    ∷ claim (pos 5) 10000000
    ∷ recover 400 [] 500000000
    ∷ replay "b" 600000000
    ∷ claim (pos 5) 700000000
    ∷ []

final_failure_stays_example :
    ExhaustedAt (pos 10) 1 (
      run identity
        (pos 10)
        traffic
        (mark_failed 1 "timeout" 9 none false (some (pos 10)) two_rows).1)
    × (id_in
          (ids
            (claim_pending_messages (pos 5) (pos 10) 800000000 (
              run identity
                (pos 10)
                traffic
                (mark_failed 1 "timeout" 9 none false (some (pos 10)) two_rows).1)).0)
          1
        ≡ false)
final_failure_stays_example =
    final_failure_stays identity (pos 10) 1 "timeout" 9 none two_rows (new_row 1 "a" 5 printed)
      traffic (pos 5) 800000000 two_rows-IsValid (unfold get_message_by_id in refl)
      (tt, (tt, (tt, (tt, (tt, tt)))))

abbrev all_writers : List Write
all_writers =
    operation (save 9000000 printed)
    ∷ set_status 1 "PROCESSING" none 9500000
    ∷ fail_with 1 "timeout" 9 none true none
    ∷ operation (claim (pos 5) 10000000)
    ∷ delete_old 100 400 no_production
    ∷ []

writes-IsValid_example : IsValid (writes identity (pos 10) all_writers empty)
writes-IsValid_example = writes-IsValid identity (pos 10) all_writers empty IsValid-empty

abbrev replayed_once : MessageRecord
replayed_once = record (new_row 1 "a" 5 printed) {
  ack_replay_count = 1;
  last_ack_replayed_at = some 100;
}

abbrev one_replayed : Messages
one_replayed = record { rows = replayed_once ∷ []; next_id = 2 }

replays_in_window_example :
    replays "a" (102000000 ∷ 104000000 ∷ 106000000 ∷ 129000000 ∷ []) one_replayed + 1 ≤ 3
replays_in_window_example =
    replays_in_window "a" (102000000 ∷ 104000000 ∷ 106000000 ∷ 129000000 ∷ []) one_replayed
      replayed_once 100 refl refl (omega arith) (omega arith)
