-- ===== src/Worker/Process.antt =====
-- `WorkerState`, `_process_record` and `_mark_record_failed` of app/queue_worker.py. The calls of
-- the clock are given, and what the child process of the submission of a payload does.
use blackbear_edge_bridge.Prelude.{
  ℕ, String, Bool, true, false, not, Option, none, some, List, [], ◌∷◌, ◌++◌, ℤ, if◌then◌else◌,
}
use blackbear_edge_bridge.Errors.{Result, ok, raise, not_serializable, Checked, accept, reject}
use blackbear_edge_bridge.Time.{format_timestamp}
use blackbear_edge_bridge.Json.{Json, null, Codec}
use blackbear_edge_bridge.Queue.Message.{MessageRecord, Messages}
use blackbear_edge_bridge.Queue.Mark.{mark_failed, Completion}
use blackbear_edge_bridge.Production.Complete.{Database, mark_completed}
use blackbear_edge_bridge.Worker.Response.{
  payload_from_record, extract_ack, extract_dashboard_metadata, get_odoo_business_error,
  is_non_retryable_business_error,
}
use blackbear_edge_bridge.Worker.Submission.{ChildRun, SubmissionResult, submission_of}

pub record WorkerState : Type 0 where
  pub last_loop_at : Option ℕ
  pub current_record_id : Option ℕ
  pub current_record_started_at : Option ℕ
  pub last_success_at : Option ℕ
  pub last_failure_at : Option ℕ
  pub pending_queue_count : ℕ

abbrev pub idle : WorkerState
idle = record {
  last_loop_at = none;
  current_record_id = none;
  current_record_started_at = none;
  last_success_at = none;
  last_failure_at = none;
  pending_queue_count = 0;
}

abbrev pub heartbeat : ℕ → WorkerState → WorkerState
heartbeat now s = record s { last_loop_at = some now }

abbrev pub begin_record : ℕ → ℕ → WorkerState → WorkerState
begin_record record_id now s = record s {
  last_loop_at = some now;
  current_record_id = some record_id;
  current_record_started_at = some now;
}

abbrev pub finish_record : Bool → ℕ → WorkerState → WorkerState
finish_record succeeded now s = record s {
  last_loop_at = some now;
  last_success_at = (if succeeded then some now else s.last_success_at);
  last_failure_at = (if succeeded then s.last_failure_at else some now);
  current_record_id = none;
  current_record_started_at = none;
}

abbrev pub set_pending_queue_count : ℕ → WorkerState → WorkerState
set_pending_queue_count n s = record s { pending_queue_count = n }

-- the database, the state of the worker, and the ACKs given to the publisher, oldest first
pub record Bridge : Type 0 where
  pub database : Database
  pub state : WorkerState
  pub acks : List String

-- the settings of the worker that processing reads
pub record WorkerSettings : Type 0 where
  pub max_retries : ℤ
  pub machine_id : String
  pub has_publisher : Bool

-- the calls of the clock
pub record Clock : Type 0 where
  pub attempted : ℕ
  pub completed : ℕ
  pub finished : ℕ

module _ (codec : Codec) (settings : WorkerSettings) (clock : Clock) where
  abbrev pub with_messages : Bridge → Messages → Bridge
  with_messages b q = record b { database = record b.database { messages = q } }

  abbrev pub after_failure : Bridge → Result (Unit {0}) × Messages → Result (Unit {0}) × Bridge
  after_failure b (raise e, q) = (raise e, with_messages b q)
  after_failure b (ok u, q) =
      (ok u, record (with_messages b q) { state = finish_record false clock.finished b.state })

  -- `_mark_record_failed`, then `finish_record(succeeded=False)`
  unfoldable pub mark_record_failed :
      ℕ → String → Option String → Bool → Bridge → Result (Unit {0}) × Bridge
  mark_record_failed i error response retryable b = after_failure b (
      mark_failed i error (format_timestamp clock.attempted) response retryable
        (some settings.max_retries) b.database.messages)

  abbrev pub completion_of : Json → String → String → Completion
  completion_of response response_text ack =
      let m = extract_dashboard_metadata response in
      record {
        completed_at = format_timestamp clock.completed;
        odoo_response = response_text;
        ack = some ack;
        customer_id = m.customer_id;
        customer_name = m.customer_name;
        operator_id = m.operator_id;
        operator_name = m.operator_name;
        number_of_operators = m.number_of_operators;
        batch_number = m.batch_number;
      }

  -- `_publish_ack`, then `finish_record(succeeded=True)`
  abbrev pub publish_and_finish : String → Bridge → Bridge
  publish_and_finish ack b = record b {
    acks = (if settings.has_publisher then b.acks ++ ack ∷ [] else b.acks);
    state = finish_record true clock.finished b.state;
  }

  abbrev pub after_completion :
      String → Bridge → Result (Unit {0}) × Database → Result (Unit {0}) × Bridge
  after_completion ack b (raise e, db) = (raise e, record b { database = db })
  after_completion ack b (ok u, db) = (ok u, publish_and_finish ack (record b { database = db }))

  unfoldable pub complete_record : ℕ → Json → String → String → Bridge → Result (Unit {0}) × Bridge
  complete_record i response response_text ack b = after_completion ack b (
      mark_completed codec i (completion_of response response_text ack) settings.machine_id
        clock.finished b.database)

  abbrev pub process_ack : ℕ → Json → String → Option String → Bridge → Result (Unit {0}) × Bridge
  process_ack i response response_text none b =
      mark_record_failed i "Odoo response success=true but missing or invalid ACK"
        (some response_text) false b
  process_ack i response response_text (some ack) b = complete_record i response response_text ack b

  abbrev pub process_business :
      ℕ → Json → String → Option String → Bridge → Result (Unit {0}) × Bridge
  process_business i response response_text (some business_error) b =
      mark_record_failed i business_error (some response_text)
        (not (is_non_retryable_business_error business_error)) b
  process_business i response response_text none b =
      process_ack i response response_text (extract_ack response) b

  -- `json.dumps(response)`, which may raise
  abbrev pub process_response : ℕ → Json → Option String → Bridge → Result (Unit {0}) × Bridge
  process_response i response none b = (raise not_serializable, b)
  process_response i response (some response_text) b =
      process_business i response response_text (get_odoo_business_error response) b

  abbrev pub response_or_null : Option Json → Json
  response_or_null none = null
  response_or_null (some r) = r

  abbrev pub process_result :
      ℕ → SubmissionResult → Option String → Bridge → Result (Unit {0}) × Bridge
  process_result i s (some error) b = mark_record_failed i error none true b
  process_result i s none b =
      process_response i (response_or_null s.response) (codec.dumps (response_or_null s.response)) b

  abbrev pub process_submission : ℕ → SubmissionResult → Bridge → Result (Unit {0}) × Bridge
  process_submission i s b =
      if s.timed_out
      then (mark_record_failed i
          "Odoo timeout; server-side completion unknown; manual verification required" none false b)
      else process_result i s s.error b

  abbrev pub process_payload :
      (String × String → ChildRun)
      → ℕ
      → Checked String (String × String)
      → Bridge
      → Result (Unit {0}) × Bridge
  process_payload submit i (reject error) b = mark_record_failed i error none true b
  process_payload submit i (accept payload) b =
      process_submission i (submission_of (submit payload)) b

  -- `_process_record`; an exception that leaves it is the `raise` of the result
  unfoldable pub process_record :
      (String × String → ChildRun) → MessageRecord → Bridge → Result (Unit {0}) × Bridge
  process_record submit r b =
      process_payload submit r.id (payload_from_record codec r.raw_payload)
        (record b { state = begin_record r.id clock.attempted b.state })
