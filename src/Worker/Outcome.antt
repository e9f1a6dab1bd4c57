-- ===== src/Worker/Outcome.antt =====
-- How an attempt of the worker ends.
use blackbear_edge_bridge.Prelude.{
  ℕ, ◌≡◌, ◌⊎◌, ◌∙◌, refl, ap, String, Bool, true, Option, none, some, List, [], ◌∷◌, ◌++◌, arith,
  inl, inr, if◌then◌else◌, select_one, select_one-holds, select_one-update, updated, update, count,
  count_pos, nat_eq,
}
use blackbear_edge_bridge.Errors.{Result, ok, raise, not_serializable, Checked, accept, reject}
use blackbear_edge_bridge.Time.{format_timestamp}
use blackbear_edge_bridge.Json.{Json, Codec}
use blackbear_edge_bridge.Queue.Message.{
  StatusValue, completed, failed, MessageRecord, Messages, has_id, get_message_by_id,
}
use blackbear_edge_bridge.Queue.WellFormed.{IsValid}
use blackbear_edge_bridge.Queue.Lookup.{mark_failed_effect, marked, count_id}
use blackbear_edge_bridge.Queue.Mark.{mark_failed, failed_row, completed_row}
use blackbear_edge_bridge.Production.Complete.{written}
use blackbear_edge_bridge.Production.Once.{complete_one}
use blackbear_edge_bridge.Worker.Response.{
  payload_from_record, extract_ack, get_odoo_business_error,
}
use blackbear_edge_bridge.Worker.Submission.{
  ChildRun, still_alive, no_result, child_response, child_error, submission_of,
}
use blackbear_edge_bridge.Worker.Process.{
  WorkerSettings, Bridge, Clock, begin_record, mark_record_failed, complete_record, completion_of,
  process_record, process_payload, process_submission, process_response, process_business,
  process_ack, after_failure, after_completion,
}

-- what an attempt leaves, when it ends
abbrev pub Leaves : ℕ → StatusValue → List String → Result (Unit {0}) × Bridge → Type 0
Leaves i status acks (result, b) =
    (result ≡ ok tt)
    × (b.acks ≡ acks)
    × (b.state.current_record_id ≡ none)
    × ((m : MessageRecord) × (get_message_by_id i b.database.messages ≡ some m)
        × (m.status ≡ status))

module _ (codec : Codec) (settings : WorkerSettings) (clock : Clock) (i : ℕ) (b : Bridge)
    (valid : IsValid b.database.messages) (stored : MessageRecord)
    (found : get_message_by_id i b.database.messages ≡ some stored) where
  pub mark_failed_found :
      (error : String) (response : Option String) (retryable : Bool)
      → (q : Messages) × (mark_failed i error
            (format_timestamp clock.attempted)
            response
            retryable
            (some settings.max_retries)
            b.database.messages
          ≡ (ok tt, q))
        × (get_message_by_id i q
            ≡ some (
                failed_row error
                  (format_timestamp clock.attempted)
                  response
                  retryable
                  (some settings.max_retries)
                  stored))
  unfolding get_message_by_id
  mark_failed_found error response retryable =
      let at = format_timestamp clock.attempted in
      let m = some settings.max_retries in
      let after = mark_failed i error at response retryable m b.database.messages in
      let (answer, row) =
        mark_failed_effect i error at response retryable m b.database.messages i valid in
      let held = select_one-holds (has_id i) b.database.messages.rows stored found in
      let row_set = failed_row error at response retryable m in
      (
        after.1,
        ap (λ a. (a, after.1)) (answer ∙ ap (marked i) found),
        row ∙ ap (updated (has_id i) row_set) found ∙ rw held refl,
      )

  pub failure-Leaves :
      (error : String) (response : Option String) (retryable : Bool)
      → Leaves i failed b.acks
          (mark_record_failed codec settings clock i error response retryable b)
  unfolding mark_record_failed
  failure-Leaves error response retryable =
      let (q, e, row) = mark_failed_found error response retryable in
      let failed_as =
        failed_row error (format_timestamp clock.attempted) response retryable
          (some settings.max_retries) stored in
      rw (e, after_failure) (refl, refl, refl, (failed_as, row, refl))

  abbrev pub acks_after : String → List String
  acks_after ack = if settings.has_publisher then b.acks ++ ack ∷ [] else b.acks

  -- the message is COMPLETED with the ACK of a response and the text of it, and the ACK is published
  abbrev pub Completes : Json → String → Result (Unit {0}) × Bridge → Type 0
  Completes response ack (result, after) =
      (result ≡ ok tt)
      × (after.acks ≡ acks_after ack)
      × (after.state.current_record_id ≡ none)
      × (extract_ack response ≡ some ack)
      × ((text : String) × (codec.dumps response ≡ some text)
          × ((m : MessageRecord) × (get_message_by_id i after.database.messages ≡ some m)
              × (m.status ≡ completed)
              × (m.ack ≡ some ack)
              × (m.odoo_response ≡ some text)))

  completion_leaves :
      (response : Json) (text ack : String)
      → let (result, after) = complete_record codec settings clock i response text ack b in
        (result ≡ ok tt)
        × (after.acks ≡ acks_after ack)
        × (after.state.current_record_id ≡ none)
        × ((m : MessageRecord) × (get_message_by_id i after.database.messages ≡ some m)
            × (m.status ≡ completed)
            × (m.ack ≡ some ack)
            × (m.odoo_response ≡ some text))
  unfolding complete_record get_message_by_id
  completion_leaves response text ack =
      let c = completion_of codec settings clock response text ack in
      let row_set = completed_row (written codec c) in
      let held = select_one-holds (has_id i) b.database.messages.rows stored found in
      let one : nat_eq (count (has_id i) b.database.messages.rows) 1 ≡ true = ground (
        arith,
        count_pos (has_id i) b.database.messages.rows stored found,
        count_id i 1 b.database.messages.next_id b.database.messages.rows valid.ordered,
      ) in
      let row : select_one (has_id i) (update (has_id i) row_set b.database.messages.rows)
          ≡ some (row_set stored) =
        rw (select_one-update (has_id i) (has_id i) row_set (λ x. refl) b.database.messages.rows)
          (rw found (rw held refl)) in
      rw
        (
          complete_one codec i c settings.machine_id clock.finished b.database stored found one,
          after_completion,
        )
        (refl, refl, refl, (row_set stored, row, refl, refl, refl))

  pub completion-Leaves :
      (response : Json) (text ack : String)
      → Leaves i completed
          (acks_after ack)
          (complete_record codec settings clock i response text ack b)
  completion-Leaves response text ack =
      let (result, acks, current, (m, row, status, _, _)) = completion_leaves response text ack in
      (result, acks, current, (m, row, status))

  -- the three ends of an attempt, whose response is one of those that `Answer` tells
  module _ (Answer : Json → Type 0) where
    abbrev Ends : Result (Unit {0}) × Bridge → Type 0
    Ends r =
        Leaves i failed b.acks r
        ⊎ ((response : Json) × (ack : String) × Answer response × Completes response ack r)
        ⊎ ((r ≡ (raise not_serializable, b))
            × ((response : Json) × Answer response × (codec.dumps response ≡ none)))

    ack-Ends :
        (response : Json) (text : String) (a : Option String)
        → codec.dumps response ≡ some text
        → extract_ack response ≡ a
        → Answer response
        → Ends (process_ack codec settings clock i response text a b)
    ack-Ends response text none e h q = inl (failure-Leaves _ _ _)
    ack-Ends response text (some ack) e h q =
        let (result, acks, current, row) = completion_leaves response text ack in
        inr (inl (response, ack, q, (result, acks, current, h, (text, e, row))))

    business-Ends :
        (response : Json) (text : String) (error : Option String)
        → codec.dumps response ≡ some text
        → Answer response
        → Ends (process_business codec settings clock i response text error b)
    business-Ends response text (some error) e q = inl (failure-Leaves _ _ _)
    business-Ends response text none e q = ack-Ends response text (extract_ack response) e refl q

    response-Ends :
        (response : Json) (t : Option String)
        → codec.dumps response ≡ t
        → Answer response
        → Ends (process_response codec settings clock i response t b)
    response-Ends response none e q = inr (inr (refl, (response, q, e)))
    response-Ends response (some text) e q =
        business-Ends response text (get_odoo_business_error response) e q

    run-Ends :
        (run : ChildRun)
        → ((response : Json) (exitcode : String)
            → run ≡ child_response response exitcode
            → Answer response)
        → Ends (process_submission codec settings clock i (submission_of run) b)
    unfolding submission_of
    run-Ends (still_alive terminated killed exitcode) k = inl (failure-Leaves _ _ _)
    run-Ends (no_result exitcode) k = inl (failure-Leaves _ _ _)
    run-Ends (child_error error_type error exitcode) k = inl (failure-Leaves _ _ _)
    run-Ends (child_response response exitcode) k =
        response-Ends response _ refl (k response exitcode refl)

-- the response that the child returns for the payload of a message
abbrev pub Answers : Codec → (String × String → ChildRun) → MessageRecord → Json → Type 0
Answers codec submit r response =
    (payload : String × String) × (exitcode : String) × (payload_from_record codec r.raw_payload
      ≡ accept payload)
    × (submit payload ≡ child_response response exitcode)

payload-Ends :
    (codec : Codec) (settings : WorkerSettings) (clock : Clock) (b : Bridge)
    (valid : IsValid b.database.messages) (r stored : MessageRecord)
    (found : get_message_by_id r.id b.database.messages ≡ some stored)
    (submit : String × String → ChildRun) (p : Checked String (String × String))
    → payload_from_record codec r.raw_payload ≡ p
    → Ends codec settings clock r.id b valid stored found
        (Answers codec submit r)
        (process_payload codec settings clock submit r.id p b)
payload-Ends codec settings clock b valid r stored found submit (reject e) h =
    inl (failure-Leaves codec settings clock r.id b valid stored found _ _ _)
payload-Ends codec settings clock b valid r stored found submit (accept payload) h =
    run-Ends codec settings clock r.id b valid stored found (Answers codec submit r)
      (submit payload) (λ response exitcode e. (payload, exitcode, h, e))

-- An attempt on a stored message ends in one of three ways: the message is FAILED and no ACK is
-- published; or it is COMPLETED with the ACK and the text of the response that the child returned for its
-- payload, and this ACK is given to the publisher, if there is one; or that response does not serialize,
-- and the exception leaves the database as it was.
pub attempt_ends :
    (codec : Codec) (settings : WorkerSettings) (clock : Clock)
    (submit : String × String → ChildRun) (r stored : MessageRecord) (b : Bridge)
    → IsValid b.database.messages
    → get_message_by_id r.id b.database.messages ≡ some stored
    → let after = process_record codec settings clock submit r b in
      Leaves r.id failed b.acks after
      ⊎ ((response : Json) × (ack : String) × Answers codec submit r response
          × (extract_ack response ≡ some ack)
          × Leaves r.id completed
              (if settings.has_publisher then b.acks ++ ack ∷ [] else b.acks)
              after
          × ((text : String) × (codec.dumps response ≡ some text)
              × ((m : MessageRecord) × (get_message_by_id r.id after.1.database.messages ≡ some m)
                  × (m.ack ≡ some ack)
                  × (m.odoo_response ≡ some text))))
      ⊎ ((after.0 ≡ raise not_serializable)
          × (after.1.database ≡ b.database)
          × (after.1.acks ≡ b.acks)
          × ((response : Json) × Answers codec submit r response × (codec.dumps response ≡ none)))
unfolding process_record
attempt_ends codec settings clock submit r stored b valid found =
    let begun : Bridge = record b { state = begin_record r.id clock.attempted b.state } in
    elim (payload-Ends codec settings clock begun valid r stored found submit
      (payload_from_record codec r.raw_payload) refl) [
        | inl f ↦ inl f
        | inr
              (inl (
                response,
                ack,
                answers,
                (result, acks, current, h, (text, e, (m, row, status, row_ack, row_text))),
              )) ↦
            inr (
              inl (
                response,
                ack,
                answers,
                h,
                (result, acks, current, (m, row, status)),
                (text, e, (m, row, row_ack, row_text)),
              ))
        | inr (inr e) ↦ inr (inr (rw e.0 (refl, refl, refl, e.1)))
      ]
