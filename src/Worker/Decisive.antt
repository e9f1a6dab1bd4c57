-- ===== src/Worker/Decisive.antt =====
-- What decides how an attempt of the worker ends.
use blackbear_edge_bridge.Prelude.{
  ◌≡◌, refl, String, Bool, true, false, Option, none, some, [], ◌∷◌, ◌++◌, if◌then◌else◌, ◌==◌, ◌+◌,
  below,
}
use blackbear_edge_bridge.Errors.{ok, accept}
use blackbear_edge_bridge.Time.{format_timestamp}
use blackbear_edge_bridge.Json.{Json, null, bool, int, float, str, arr, obj, get, Codec}
use blackbear_edge_bridge.Queue.Message.{completed, MessageRecord, get_message_by_id}
use blackbear_edge_bridge.Queue.WellFormed.{IsValid}
use blackbear_edge_bridge.Queue.Exhausted.{ExhaustedAt, final_failure-IsExhausted}
use blackbear_edge_bridge.Queue.Claim.{is_claimable}
use blackbear_edge_bridge.Queue.Mark.{failed_row}
use blackbear_edge_bridge.Production.Tables.{
  production_metadata_from_response, metadata_int, metadata_str, result_metadata,
}
use blackbear_edge_bridge.Worker.Response.{
  payload_from_record, extract_ack, get_odoo_business_error, is_true, extract_dashboard_metadata,
  optional_str, optional_int, ack_of, success_flag, dashboard_fields,
}
use blackbear_edge_bridge.Worker.Submission.{
  ChildRun, still_alive, child_response, child_error, submission_of,
}
use blackbear_edge_bridge.Worker.Process.{
  WorkerSettings, Bridge, Clock, begin_record, mark_record_failed, process_record, process_payload,
  process_response, process_business, process_ack, after_failure,
}
use blackbear_edge_bridge.Worker.Outcome.{Leaves, mark_failed_found, completion-Leaves}

-- a response with an ACK has no business error
ack_no_error :
    (response : Json) (ack : String)
    → extract_ack response ≡ some ack
    → get_odoo_business_error response ≡ none
unfolding extract_ack get_odoo_business_error
ack_no_error (obj fs) ack h = flag (get "success" fs) (get "error" fs) (ack_of (get "result" fs)) h
  where
    flag :
        (s e : Option Json) (a : Option String)
        → (if is_true s then a else none) ≡ some ack
        → success_flag s e ≡ none
    flag (some (bool true)) e a h = refl
    flag (some (bool false)) e a h = cc
    flag (some null) e a h = cc
    flag (some (int n)) e a h = cc
    flag (some (float n)) e a h = cc
    flag (some (str n)) e a h = cc
    flag (some (arr n)) e a h = cc
    flag (some (obj n)) e a h = cc
    flag none e a h = cc
ack_no_error _ ack h = cc

str_agrees : (o : Option Json) → metadata_str o ≡ optional_str o
str_agrees none = refl
str_agrees (some (str s)) = refl
str_agrees (some _) = refl

int_agrees : (o : Option Json) → metadata_int o ≡ optional_int o
int_agrees none = refl
int_agrees (some (int s)) = refl
int_agrees (some _) = refl

fields_agree : (o : Option Json) → result_metadata o ≡ dashboard_fields o
fields_agree (some (obj result)) = rw (int_agrees (get "customer_id" result)) (
    rw (str_agrees (get "customer_name" result)) (
      rw (int_agrees (get "operator_id" result)) (
        rw (str_agrees (get "operator_name" result)) (
          rw (int_agrees (get "number_of_operators" result))
            (rw (str_agrees (get "batch_number" result)) refl)))))
fields_agree none = refl
fields_agree (some _) = refl

-- The worker and the reconciliation read the same metadata from a response, when the stored text
-- loads as the response.
pub metadata_agrees :
    (codec : Codec) (response : Json) (text : String)
    → codec.loads text ≡ accept response
    → production_metadata_from_response codec text ≡ extract_dashboard_metadata response
unfolding production_metadata_from_response extract_dashboard_metadata
metadata_agrees codec (obj fs) text h = rw h (fields_agree (get "result" fs))
metadata_agrees codec null text h = rw h refl
metadata_agrees codec (bool x) text h = rw h refl
metadata_agrees codec (int x) text h = rw h refl
metadata_agrees codec (float x) text h = rw h refl
metadata_agrees codec (str x) text h = rw h refl
metadata_agrees codec (arr x) text h = rw h refl

module _ (codec : Codec) (settings : WorkerSettings) (clock : Clock)
    (submit : String × String → ChildRun) (r stored : MessageRecord) (b : Bridge)
    (valid : IsValid b.database.messages)
    (found : get_message_by_id r.id b.database.messages ≡ some stored) where
  abbrev begun : Bridge
  begun = record b { state = begin_record r.id clock.attempted b.state }

  -- An attempt whose payload is valid and whose response carries an ACK and serializes completes the
  -- message and gives that ACK to the publisher.
  pub completes_on_ack :
      (payload : String × String) (response : Json) (exitcode text ack : String)
      → payload_from_record codec r.raw_payload ≡ accept payload
      → submit payload ≡ child_response response exitcode
      → codec.dumps response ≡ some text
      → extract_ack response ≡ some ack
      → Leaves r.id completed
          (if settings.has_publisher then b.acks ++ ack ∷ [] else b.acks)
          (process_record codec settings clock submit r b)
  unfolding process_record submission_of
  completes_on_ack payload response exitcode text ack p s t a =
      rw (p, process_payload)
        (rw s (
          rw (t, process_response)
            (rw (ack_no_error response ack a, process_business)
              (rw (a, process_ack)
                (completion-Leaves codec settings clock r.id begun valid stored found response text
                  ack)))))

  -- A message whose submission times out is FAILED and cannot be claimed again, and no ACK is published.
  pub timeout_is_final :
      (payload : String × String) (terminated killed : Bool) (exitcode : String)
      → payload_from_record codec r.raw_payload ≡ accept payload
      → submit payload ≡ still_alive terminated killed exitcode
      → let (result, after) = process_record codec settings clock submit r b in
        (result ≡ ok tt)
        × (after.acks ≡ b.acks)
        × ExhaustedAt settings.max_retries r.id after.database.messages
  unfolding process_record submission_of mark_record_failed get_message_by_id
  timeout_is_final payload terminated killed exitcode p s =
      let at = format_timestamp clock.attempted in
      let error : String =
        "Odoo timeout; server-side completion unknown; manual verification required" in
      let (q, e, row) =
        mark_failed_found codec settings clock r.id begun valid stored found error none false in
      rw (p, process_payload)
        (rw s (
          rw (e, after_failure)
            (
              refl,
              refl,
              (
                failed_row error at none false (some settings.max_retries) stored,
                row,
                final_failure-IsExhausted error at none settings.max_retries stored,
              ),
            )))

  -- A message whose submission ends with an error of the child, whatever its type, is FAILED with that
  -- error and one more retry, no ACK is published, and it can be claimed again exactly while its retries
  -- are below the maximum.
  pub error_is_retried :
      (payload : String × String) (error_type error exitcode : String)
      → payload_from_record codec r.raw_payload ≡ accept payload
      → submit payload ≡ child_error error_type error exitcode
      → (error == "") ≡ false
      → let (result, after) = process_record codec settings clock submit r b in
        (result ≡ ok tt)
        × (after.acks ≡ b.acks)
        × ((m : MessageRecord) × (get_message_by_id r.id after.database.messages ≡ some m)
            × (m.last_error ≡ some error)
            × (m.retry_count ≡ stored.retry_count + 1)
            × (is_claimable settings.max_retries m
                ≡ below (stored.retry_count + 1) settings.max_retries))
  unfolding process_record submission_of mark_record_failed get_message_by_id
  error_is_retried payload error_type error exitcode p s n =
      let at = format_timestamp clock.attempted in
      let (q, e, row) =
        mark_failed_found codec settings clock r.id begun valid stored found error none true in
      rw (p, process_payload)
        (rw s (
          rw n (
            rw (e, after_failure)
              (
                refl,
                refl,
                (
                  failed_row error at none true (some settings.max_retries) stored,
                  row,
                  refl,
                  refl,
                  refl,
                ),
              ))))
