-- ===== src/Worker/Settled.antt =====
-- A round of the worker: every record that it attempts is settled, and the other rows are kept.
use blackbear_edge_bridge.Prelude.{
  ℕ, ◌≡◌, ◌∙◌, refl, String, Bool, false, Option, none, some, arith, ℤ, Bool-cases, Option-cases,
  inl, inr, select_one, select_one-holds, updated, nat_eq, count,
}
use blackbear_edge_bridge.Errors.{Result, ok, raise, Checked, accept, reject}
use blackbear_edge_bridge.Time.{format_timestamp}
use blackbear_edge_bridge.Json.{Json, Codec}
use blackbear_edge_bridge.Queue.Message.{MessageRecord, Messages, has_id, get_message_by_id}
use blackbear_edge_bridge.Queue.WellFormed.{IsValid, mark_failed-IsValid, update_one-IsValid}
use blackbear_edge_bridge.Queue.Lookup.{mark_failed_effect, update_one_rows}
use blackbear_edge_bridge.Queue.Mark.{
  Completion, mark_failed, failed_row, completed_row, update_one_found,
}
use blackbear_edge_bridge.Production.Complete.{Database, mark_completed, written}
use blackbear_edge_bridge.Production.Once.{complete_none, complete_many, complete_one}
use blackbear_edge_bridge.Worker.Response.{
  payload_from_record, extract_ack, get_odoo_business_error,
}
use blackbear_edge_bridge.Worker.Submission.{ChildRun, SubmissionResult, submission_of}
use blackbear_edge_bridge.Worker.Process.{
  WorkerSettings, Bridge, Clock, begin_record, mark_record_failed, complete_record, completion_of,
  process_record, process_payload, process_submission, process_result, process_response,
  process_business, process_ack, after_failure, after_completion,
}

-- the table stays well-formed and keeps every row but the one of the message
pub record Frames (i : ℕ) (before after : Messages) : Type 0 where
  pub is_valid : IsValid after
  pub keeps : (j : ℕ) → nat_eq i j ≡ false → get_message_by_id j after ≡ get_message_by_id j before

Frames-same : (i : ℕ) (q : Messages) → IsValid q → Frames i q q
Frames-same i q v = record { is_valid = v; keeps = λ j n. refl }

-- an update of one row touches no other
other_kept :
    (i j : ℕ) (set : MessageRecord → MessageRecord) (q : Messages) (o : Option MessageRecord)
    → get_message_by_id j q ≡ o
    → nat_eq i j ≡ false
    → updated (has_id i) set o ≡ o
unfolding get_message_by_id
other_kept i j set q none e n = refl
other_kept i j set q (some r) e n = ground (arith, select_one-holds (has_id j) q.rows r e, n)

failed-Frames :
    (i : ℕ) (error : String) (at : ℕ) (response : Option String) (retryable : Bool) (m : Option ℤ)
    (q : Messages)
    → IsValid q
    → Frames i q (mark_failed i error at response retryable m q).1
failed-Frames i error at response retryable m q v = record {
  is_valid = mark_failed-IsValid i error at response retryable m q v;
  keeps = λ j n.
      let (answer, row) = mark_failed_effect i error at response retryable m q j v in
      row
      ∙ other_kept i j (failed_row error at response retryable m) q (get_message_by_id j q) refl n;
}

completed-Frames :
    (codec : Codec) (i : ℕ) (c : Completion) (machine_id : String) (now : ℕ) (db : Database)
    → IsValid db.messages
    → Frames i db.messages (mark_completed codec i c machine_id now db).1.messages
unfolding get_message_by_id
completed-Frames codec i c machine_id now db v =
    elim (Option-cases (select_one (has_id i) db.messages.rows)) [
      | inl e ↦ rw (complete_none codec i c machine_id now db e) (Frames-same i db.messages v)
      | inr (source, e) ↦ elim (Bool-cases (nat_eq (count (has_id i) db.messages.rows) 1)) [
        | inr n ↦
            rw (complete_many codec i c machine_id now db source e n) (Frames-same i db.messages v)
        | inl n ↦
            let set = completed_row (written codec c) in
            let one = update_one_found i set db.messages n in
            rw (complete_one codec i c machine_id now db source e n) (record {
              is_valid = rw one at (update_one-IsValid i set db.messages (λ r. refl) (λ r. refl) v);
              keeps = λ j m.
                  let row = rw one at (update_one_rows i set db.messages v (λ r. refl) j) in
                  row
                  ∙ other_kept i j set db.messages (select_one (has_id j) db.messages.rows) refl m;
            })
      ]
    ]

module _ (codec : Codec) (settings : WorkerSettings) (clock : Clock) (i : ℕ) (b : Bridge)
    (valid : IsValid b.database.messages) where
  abbrev IsFramed : Result (Unit {0}) × Bridge → Type 0
  IsFramed r = Frames i b.database.messages r.1.database.messages

  failure-IsFramed :
      (error : String) (response : Option String) (retryable : Bool)
      → IsFramed (mark_record_failed codec settings clock i error response retryable b)
  unfolding mark_record_failed
  failure-IsFramed error response retryable =
      of_result
        (mark_failed i error (format_timestamp clock.attempted) response retryable
          (some settings.max_retries) b.database.messages)
        (failed-Frames i error (format_timestamp clock.attempted) response retryable
          (some settings.max_retries) b.database.messages valid)
    where
      of_result :
          (a : Result (Unit {0}) × Messages)
          → Frames i b.database.messages a.1
          → IsFramed (after_failure codec settings clock b a)
      of_result (ok u, q) f = f
      of_result (raise e, q) f = f

  completion-IsFramed :
      (response : Json) (text ack : String)
      → IsFramed (complete_record codec settings clock i response text ack b)
  unfolding complete_record
  completion-IsFramed response text ack =
      let c = completion_of codec settings clock response text ack in
      of_result (mark_completed codec i c settings.machine_id clock.finished b.database)
        (completed-Frames codec i c settings.machine_id clock.finished b.database valid)
    where
      of_result :
          (a : Result (Unit {0}) × Database)
          → Frames i b.database.messages a.1.messages
          → IsFramed (after_completion codec settings clock ack b a)
      of_result (ok u, q) f = f
      of_result (raise e, q) f = f

  ack-IsFramed :
      (response : Json) (text : String) (a : Option String)
      → IsFramed (process_ack codec settings clock i response text a b)
  ack-IsFramed response text none = failure-IsFramed _ _ _
  ack-IsFramed response text (some ack) = completion-IsFramed response text ack

  business-IsFramed :
      (response : Json) (text : String) (e : Option String)
      → IsFramed (process_business codec settings clock i response text e b)
  business-IsFramed response text (some e) = failure-IsFramed _ _ _
  business-IsFramed response text none = ack-IsFramed response text (extract_ack response)

  response-IsFramed :
      (response : Json) (t : Option String)
      → IsFramed (process_response codec settings clock i response t b)
  response-IsFramed response none = Frames-same i b.database.messages valid
  response-IsFramed response (some text) =
      business-IsFramed response text (get_odoo_business_error response)

  result-IsFramed :
      (s : SubmissionResult) (e : Option String)
      → IsFramed (process_result codec settings clock i s e b)
  result-IsFramed s (some e) = failure-IsFramed _ _ _
  result-IsFramed s none = response-IsFramed _ _

  submission-IsFramed :
      (s : SubmissionResult) → IsFramed (process_submission codec settings clock i s b)
  submission-IsFramed s = elim (Bool-cases s.timed_out) [
    | inl t ↦ rw t (failure-IsFramed _ _ _)
    | inr f ↦ rw f (result-IsFramed s s.error)
  ]

  payload-IsFramed :
      (submit : String × String → ChildRun) (p : Checked String (String × String))
      → IsFramed (process_payload codec settings clock submit i p b)
  payload-IsFramed submit (reject e) = failure-IsFramed _ _ _
  payload-IsFramed submit (accept payload) = submission-IsFramed (submission_of (submit payload))

-- an attempt touches no other row
pub process-Frames :
    (codec : Codec) (settings : WorkerSettings) (clock : Clock)
    (submit : String × String → ChildRun) (r : MessageRecord) (b : Bridge)
    → IsValid b.database.messages
    → Frames r.id b.database.messages
        (process_record codec settings clock submit r b).1.database.messages
unfolding process_record
process-Frames codec settings clock submit r b valid =
    payload-IsFramed codec settings clock r.id
      (record b { state = begin_record r.id clock.attempted b.state }) valid submit
      (payload_from_record codec r.raw_payload)
