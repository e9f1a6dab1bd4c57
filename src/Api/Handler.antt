-- ===== src/Api/Handler.antt =====
-- `plc_command` of app/api.py with `_get_duplicate_response`, `_record_within_ttl`,
-- `_reject_request`, `_stored_json_response` and `_refresh_ready_before_print_job_start`.
-- Authentication comes before the handler. The json module, SHA-256, the clock and what the publishers
-- return are parameters.
use Prim.Native.String.{◌++◌ as text_append}
use blackbear_edge_bridge.Prelude.{
  ℕ, ◌+◌, ◌*◌, String, Bool, true, false, ◌&&◌, not, Option, none, some, [], ◌∷◌, ◌++◌, leb,
  is_nonpos, pos_part, ◌==◌, if◌then◌else◌,
}
use blackbear_edge_bridge.Errors.{Error, Result, ok, raise, malformed_body, Checked, accept, reject}
use blackbear_edge_bridge.Time.{micros}
use blackbear_edge_bridge.Json.{Json, bool, str, obj, end, field}
use blackbear_edge_bridge.Command.Validate.{CommandError, Command, validate_plc_command}
use blackbear_edge_bridge.Api.Commands.{
  ApiCommandRecord, ApiCommands, create_api_command_record, get_api_command_by_idempotency_key,
  mark_api_command_published, mark_api_command_failed, mark_api_command_rejected, save_api_response,
}
use blackbear_edge_bridge.Api.Call.{
  message_of, PublishResult, JsonResponse, ApiContext, ApiCall, ApiState, after, usable_key,
  command_json, optional_json, key_json, failure_body, error_or_unavailable,
}

module _ (x : ApiContext) where
  -- `_record_within_ttl`
  unfoldable pub record_within_ttl : ApiCommandRecord → ℕ → Bool
  record_within_ttl r now =
      if is_nonpos x.idempotency_ttl_seconds
      then false
      else leb now ((r.received_at + pos_part x.idempotency_ttl_seconds) * micros)

  abbrev replayed : ℕ → Checked String Json → Result JsonResponse
  replayed code (accept v) = ok (record { status_code = code; content = v })
  replayed code (reject e) = raise malformed_body

  abbrev pending : ApiCommandRecord → JsonResponse
  pending r = record {
    status_code = 409;
    content =
        failure_body "duplicate_pending" r.request_id "Original request is still being processed";
  }

  abbrev pub stored_response : ApiCommandRecord → Option ℕ → Option String → Result JsonResponse
  stored_response r (some code) (some body) = replayed code (x.loads body)
  stored_response r _ _ = ok (pending r)

  abbrev pub response_of_row : Option ApiCommandRecord → ℕ → Option (Result JsonResponse)
  response_of_row none now = none
  response_of_row (some r) now =
      if record_within_ttl r now
      then some (stored_response r r.response_code r.response_body)
      else none

  abbrev pub response_of_key : Option String → ℕ → ApiCommands → Option (Result JsonResponse)
  response_of_key none now t = none
  response_of_key (some k) now t = response_of_row (get_api_command_by_idempotency_key k t) now

  -- `_get_duplicate_response`; a stored body that does not load raises
  unfoldable pub get_duplicate_response :
      Option String → ℕ → ApiCommands → Option (Result JsonResponse)
  get_duplicate_response key now t = response_of_key (usable_key key) now t

  -- `_stored_json_response`
  unfoldable pub stored_json_response :
      String → ℕ → Json → ApiState → Result JsonResponse × ApiState
  stored_json_response i code body s =
      after s (save_api_response i code (x.encode body) s.commands)
        (λ s'. (ok (record { status_code = code; content = body }), s'))

  -- `_reject_request`
  unfoldable pub reject_request :
      ApiCall → String → String → ℕ → ApiState → Result JsonResponse × ApiState
  reject_request c payload error code s =
      after s (create_api_command_record x.sha256 c.request payload x.topic c.now s.commands) (λ s1.
        after s1 (mark_api_command_rejected c.request.request_id error s1.commands) (λ s2.
          stored_json_response c.request.request_id code
            (failure_body "rejected" c.request.request_id error) s2))

  -- `mark_api_command_failed` and the 503 response
  unfoldable pub fail_command : ApiCall → PublishResult → ApiState → Result JsonResponse × ApiState
  fail_command c p s =
      let i = c.request.request_id in
      let error = error_or_unavailable p.error in
      after s (mark_api_command_failed i error p.rc p.mid s.commands)
        (λ s1. stored_json_response i 503 (failure_body "failed" i error) s1)

  abbrev pub published_body : ApiCall → Command → Json
  published_body c command = obj (
      field "success" (bool true) (
        field "status" (str "published") (
          field "request_id" (str c.request.request_id) (
            field "idempotency_key" (key_json c.request.idempotency_key) (
              field "topic" (str x.topic) (
                field "payload" (command_json command)
                  (field "mqtt_mid" (optional_json c.command_publish.mid) end)))))))

  -- `mqtt_client.publish_plc_command(command)` and what follows
  unfoldable pub publish_command : ApiCall → Command → ApiState → Result JsonResponse × ApiState
  publish_command c command s =
      let p = c.command_publish in
      let i = c.request.request_id in
      let sent = record s { published = s.published ++ command ∷ [] } in
      if p.success
      then after sent (mark_api_command_published i p.rc p.mid c.now sent.commands)
          (λ s1. stored_json_response i 200 (published_body c command) s1)
      else fail_command c p sent

  -- `_refresh_ready_before_print_job_start`, when it does not return None
  abbrev pub refreshes : ApiCall → Command → Bool
  refreshes c command = (command.key == "messt01") && c.is_ready && c.is_connected

  -- after the record is created
  unfoldable pub run_command : ApiCall → Command → ApiState → Result JsonResponse × ApiState
  run_command c command s =
      if refreshes c command && not c.readiness_publish.success
      then fail_command c c.readiness_publish s
      else publish_command c command s

  -- `except sqlite3.IntegrityError`, with the second look for a duplicate
  abbrev pub again :
      Error → Option (Result JsonResponse) → ApiState → Result JsonResponse × ApiState
  again e none s = (raise e, s)
  again e (some r) s = (r, s)

  abbrev pub created :
      ApiCall
      → Command
      → ApiState
      → Result ApiCommandRecord × ApiCommands
      → Result JsonResponse × ApiState
  created c command s (ok row, t) = run_command c command (record s { commands = t })
  created c command s (raise e, t) =
      again e (get_duplicate_response c.request.idempotency_key c.now t) (record s { commands = t })

  abbrev pub unless_duplicate :
      ApiCall → Command → Option (Result JsonResponse) → ApiState → Result JsonResponse × ApiState
  unless_duplicate c command (some r) s = (r, s)
  unless_duplicate c command none s = created c command s (
      create_api_command_record x.sha256 c.request (x.encode_payload (command_json command)) x.topic
        c.now s.commands)

  abbrev pub validated :
      ApiCall → Checked CommandError Command → ApiState → Result JsonResponse × ApiState
  validated c (reject e) s = reject_request c c.body (message_of e) 422 s
  validated c (accept command) s =
      unless_duplicate c command (get_duplicate_response c.request.idempotency_key c.now s.commands)
        s

  abbrev pub loaded : ApiCall → Checked String Json → ApiState → Result JsonResponse × ApiState
  loaded c (reject e) s = reject_request c c.body (text_append "Malformed JSON: " e) 422 s
  loaded c (accept v) s = validated c (validate_plc_command v) s

  unfoldable pub plc_command : ApiCall → ApiState → Result JsonResponse × ApiState
  plc_command c s =
      if c.too_large
      then reject_request c "[body too large]" "Request body exceeds configured maximum size" 413 s
      else loaded c (x.loads c.body) s
