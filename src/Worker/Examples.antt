-- ===== src/Worker/Examples.antt =====
-- The worker on one stored message.
use blackbear_edge_bridge.Prelude.{
  All, length, ◌≡◌, ◌≢◌, ◌⊎◌, refl, String, Option, true, false, some, [], ◌∷◌, pos, arith,
  if◌then◌else◌, ◌==◌,
}
use blackbear_edge_bridge.Errors.{ok, raise, not_serializable, accept, reject}
use blackbear_edge_bridge.Text.{last_three}
use blackbear_edge_bridge.Json.{Json, bool, str, obj, end, field, Codec}
use blackbear_edge_bridge.Queue.Message.{
  completed, failed, MessageRecord, Messages, get_message_by_id,
}
use blackbear_edge_bridge.Queue.Save.{Incoming, new_row}
use blackbear_edge_bridge.Queue.Claim.{claimed}
use blackbear_edge_bridge.Queue.Exhausted.{ExhaustedAt}
use blackbear_edge_bridge.Queue.WellFormed.{IsValid}
use blackbear_edge_bridge.Production.Tables.{no_production}
use blackbear_edge_bridge.Worker.Response.{payload_from_record, extract_ack}
use blackbear_edge_bridge.Worker.Submission.{ChildRun, still_alive, child_response, child_error}
use blackbear_edge_bridge.Worker.Process.{WorkerSettings, Bridge, Clock, idle, process_record}
use blackbear_edge_bridge.Worker.Outcome.{Leaves, Answers, attempt_ends}
use blackbear_edge_bridge.Worker.Decisive.{timeout_is_final}
use blackbear_edge_bridge.Worker.Pass.{IsSettled}
use blackbear_edge_bridge.Worker.Whole.{claimed_first, round_settles}
use blackbear_edge_bridge.Worker.Round.{Round, logged_in, run_once, ActiveSubmission}

abbrev pub payload : Json
payload = obj (field "MN" (str "AB 17T01") end)

abbrev pub response : Json
response = obj (field "success" (bool true) (field "result" (obj (field "ACK" (str "A1") end)) end))

abbrev pub codec : Codec
codec = record {
  loads = λ t.
      if t == "payload"
      then accept payload
      else if t == "response"
      then accept response
      else reject "Expecting value";
  dumps = λ v. some "response";
}

abbrev pub incoming : Incoming
incoming = record {
  topic = "plc";
  raw_payload = "payload";
  message_type = "MN";
  table_no = "T01";
  model = "AB";
  serial = "17";
}

abbrev pub stored : MessageRecord
stored = claimed 6 (new_row 1 "h" 5 incoming)

abbrev pub messages : Messages
messages = record { rows = stored ∷ []; next_id = 2 }

pub messages-IsValid : IsValid messages
messages-IsValid = record { ordered = (omega arith, omega arith); distinct = (tt, tt) }

abbrev pub before : Bridge
before = record {
  database = record { messages = messages; production = no_production };
  state = idle;
  acks = [];
}

abbrev pub settings : WorkerSettings
settings = record { max_retries = pos 10; machine_id = "BEB"; has_publisher = true }

abbrev pub clock : Clock
clock = record { attempted = 7000000; completed = 8000000; finished = 9000000 }

abbrev answers : String × String → ChildRun
answers p = child_response response "0"

abbrev hangs : String × String → ChildRun
hangs p = still_alive true false "-15"

pub found : get_message_by_id 1 messages ≡ some stored
unfolding get_message_by_id
found = refl

pub valid_payload : payload_from_record codec "payload" ≡ accept ("MN", "AB 17T01")
unfolding payload_from_record last_three
valid_payload = refl

pub with_ack : extract_ack response ≡ some "A1"
unfolding extract_ack
with_ack = refl

attempt_ends_example :
    let after = process_record codec settings clock answers stored before in
    Leaves 1 failed [] after
    ⊎ ((v : Json) × (ack : String) × Answers codec answers stored v
        × (extract_ack v ≡ some ack)
        × Leaves 1 completed (ack ∷ []) after
        × ((text : String) × (codec.dumps v ≡ some text)
            × ((m : MessageRecord) × (get_message_by_id 1 after.1.database.messages ≡ some m)
                × (m.ack ≡ some ack)
                × (m.odoo_response ≡ some text))))
    ⊎ ((after.0 ≡ raise not_serializable)
        × (after.1.database ≡ before.database)
        × (after.1.acks ≡ [])
        × ((v : Json) × Answers codec answers stored v × (codec.dumps v ≡ Option.none)))
attempt_ends_example =
    attempt_ends codec settings clock answers stored stored before messages-IsValid found

timeout_is_final_example :
    ((process_record codec settings clock hangs stored before).0 ≡ ok tt)
    × ((process_record codec settings clock hangs stored before).1.acks ≡ [])
    × ExhaustedAt
        (pos 10)
        1
        (process_record codec settings clock hangs stored before).1.database.messages
timeout_is_final_example =
    timeout_is_final codec settings clock hangs stored stored before messages-IsValid found
      ("MN", "AB 17T01") true false "-15" valid_payload refl

abbrev active : ActiveSubmission
active = record { is_alive = true; record_id = 1; started_at = 7000000 }

abbrev drops : String × String → ChildRun
drops p = child_error "OdooSubmissionError" "Odoo XML-RPC transport error: timed out" "0"

abbrev one_round : Round
one_round = record {
  is_authenticated = true;
  login = logged_in;
  started = 6000000;
  claimed_at = 6000000;
  stopped = λ k. false;
  clock = λ k. clock;
}

-- a message that was not claimed yet
abbrev waiting : Bridge
waiting = record before {
  database = record {
    messages = record { rows = new_row 1 "h" 5 incoming ∷ []; next_id = 2 };
    production = no_production;
  };
}

waiting-IsValid : IsValid waiting.database.messages
waiting-IsValid = record { ordered = (omega arith, omega arith); distinct = (tt, tt) }

answers_serialize : (v : Json) → codec.dumps v ≢ Option.none
answers_serialize v h = ground (arith, h)

round_settles_example :
    let (result, after) = run_once codec settings answers (pos 10) one_round waiting in
    let claimed = claimed_first (pos 10) (pos 10) waiting.database.messages in
    (result ≡ ok (length claimed)) × All (IsSettled after.database.messages) claimed
round_settles_example =
    round_settles codec settings answers (pos 10) one_round waiting (λ k. refl) answers_serialize
      refl waiting-IsValid
