-- ===== src/Worker/Child.antt =====
-- `_submit_payload_in_child` of app/queue_worker.py: the child process runs the client of
-- app/odoo_client.py. An attempt of the worker, down to the calls that Odoo receives.
use blackbear_edge_bridge.Prelude.{
  ◌≡◌, refl, ap, ◌+◌, String, ℤ, none, some, [], ◌∷◌, ◌++◌, below, if◌then◌else◌,
}
use blackbear_edge_bridge.Errors.{ok, accept}
use blackbear_edge_bridge.Json.{Json, str, Fields, end, field, Codec}
use blackbear_edge_bridge.Queue.Message.{completed, MessageRecord, get_message_by_id}
use blackbear_edge_bridge.Queue.Claim.{is_claimable}
use blackbear_edge_bridge.Queue.WellFormed.{IsValid}
use blackbear_edge_bridge.Odoo.Client.{
  OdooClientSettings, from_settings, OdooXmlRpcClient, authentication, execute_kw, returned, Server,
  Texts, authentication_error, submission_error, uncaught, Outcome, returns, raises, granted_uid,
  authenticate,
}
use blackbear_edge_bridge.Odoo.Submit.{submit_print_data, submit_payload}
use blackbear_edge_bridge.Worker.Response.{payload_from_record, extract_ack}
use blackbear_edge_bridge.Worker.Submission.{ChildRun, child_response, child_error}
use blackbear_edge_bridge.Worker.Process.{WorkerSettings, Bridge, Clock, process_record}
use blackbear_edge_bridge.Worker.Outcome.{Leaves}
use blackbear_edge_bridge.Worker.Decisive.{completes_on_ack, error_is_retried}

-- the result that the child writes
abbrev pub child_result : Texts → String → Outcome Json → ChildRun
child_result texts exitcode (returns response) = child_response response exitcode
child_result texts exitcode (raises (authentication_error text)) =
    child_error "OdooAuthenticationError" text exitcode
child_result texts exitcode (raises (submission_error text)) =
    child_error "OdooSubmissionError" text exitcode
child_result texts exitcode (raises (uncaught e)) =
    child_error (texts.type_name e) (texts.shown e) exitcode

-- the dict of one entry that `payload_from_record` returns
abbrev pub payload_fields : String × String → Fields
payload_fields payload = field payload.0 (str payload.1) end

module _ (server : Server) (texts : Texts) (client : OdooClientSettings) (exitcode : String) where
  abbrev pub submission_in_child : String × String → Outcome Json × OdooXmlRpcClient
  submission_in_child payload =
      submit_print_data server texts (payload_fields payload) (from_settings client)

  -- a child that ends within the submission timeout
  unfoldable pub submit_payload_in_child : String × String → ChildRun
  submit_payload_in_child payload = child_result texts exitcode (submission_in_child payload).0

  granted_submission :
      (payload : String × String) (value response : Json) (uid : ℤ)
      → server.answer [] authentication ≡ returned value
      → granted_uid value ≡ some uid
      → server.answer (authentication ∷ []) (execute_kw (some uid) (payload_fields payload))
        ≡ returned response
      → ((submission_in_child payload).0 ≡ returns response)
        × ((submission_in_child payload).1.calls
            ≡ execute_kw (some uid) (payload_fields payload) ∷ authentication ∷ [])
  unfolding submit_print_data submit_payload from_settings
  granted_submission payload value response uid a g e =
      rw (a, authenticate) (rw g (rw e (refl, refl)))

  refused_submission :
      (payload : String × String) (value : Json)
      → server.answer [] authentication ≡ returned value
      → granted_uid value ≡ none
      → ((submission_in_child payload).0
          ≡ raises (submission_error "Odoo authentication failed: invalid UID"))
        × ((submission_in_child payload).1.calls ≡ authentication ∷ [])
  unfolding submit_print_data submit_payload from_settings
  refused_submission payload value a g = rw (a, authenticate) (rw g (refl, refl))

  module _ (codec : Codec) (settings : WorkerSettings) (clock : Clock) (r stored : MessageRecord)
      (b : Bridge) (valid : IsValid b.database.messages)
      (found : get_message_by_id r.id b.database.messages ≡ some stored) (payload : String × String)
      (sound : payload_from_record codec r.raw_payload ≡ accept payload) where
    -- When Odoo grants a uid and answers the payload with a response that serializes and carries an ACK,
    -- one attempt on a stored message completes it and gives the ACK to the publisher, and Odoo receives
    -- an authentication and the payload, once, with the uid that it granted.
    pub delivered :
        (value response : Json) (uid : ℤ) (text ack : String)
        → server.answer [] authentication ≡ returned value
        → granted_uid value ≡ some uid
        → server.answer (authentication ∷ []) (execute_kw (some uid) (payload_fields payload))
          ≡ returned response
        → codec.dumps response ≡ some text
        → extract_ack response ≡ some ack
        → Leaves r.id completed
            (if settings.has_publisher then b.acks ++ ack ∷ [] else b.acks)
            (process_record codec settings clock submit_payload_in_child r b)
          × ((submission_in_child payload).1.calls
              ≡ execute_kw (some uid) (payload_fields payload) ∷ authentication ∷ [])
    unfolding submit_payload_in_child
    delivered value response uid text ack a g e t k =
        let (result, calls) = granted_submission payload value response uid a g e in
        (
          completes_on_ack codec settings clock submit_payload_in_child r stored b valid found
              payload response exitcode text ack sound (ap (child_result texts exitcode) result) t
              k,
          calls,
        )

    -- When Odoo grants no uid, one attempt on a stored message marks it failed with that error and one
    -- more retry, no ACK is published, and Odoo receives the authentication and no payload.
    pub login_refused :
        (value : Json)
        → server.answer [] authentication ≡ returned value
        → granted_uid value ≡ none
        → let (result, after) = process_record codec settings clock submit_payload_in_child r b in
          (result ≡ ok tt)
          × (after.acks ≡ b.acks)
          × ((m : MessageRecord) × (get_message_by_id r.id after.database.messages ≡ some m)
              × (m.last_error ≡ some "Odoo authentication failed: invalid UID")
              × (m.retry_count ≡ stored.retry_count + 1)
              × (is_claimable settings.max_retries m
                  ≡ below (stored.retry_count + 1) settings.max_retries))
          × ((submission_in_child payload).1.calls ≡ authentication ∷ [])
    unfolding submit_payload_in_child
    login_refused value a g =
        let (result, calls) = refused_submission payload value a g in
        let (done, silent, marked) =
          error_is_retried codec settings clock submit_payload_in_child r stored b valid found
            payload "OdooSubmissionError" "Odoo authentication failed: invalid UID" exitcode sound
            (ap (child_result texts exitcode) result) refl in
        (done, silent, marked, calls)
