-- ===== src/Api/Examples.antt =====
-- The command API on concrete calls.
use blackbear_edge_bridge.Prelude.{
  ℕ, ◌≡◌, ◌∙◌, refl, sym, String, Bool, true, false, none, some, [], ◌∷◌, pos, arith, ◌==◌,
  if◌then◌else◌,
}
use blackbear_edge_bridge.Errors.{Result, ok, accept, reject}
use blackbear_edge_bridge.Json.{Json, bool, int, str, obj, end, field}
use blackbear_edge_bridge.Command.Validate.{Command, validate_plc_command, validate_entry}
use blackbear_edge_bridge.Api.Commands.{
  ApiCommandRecord, is_taken, new_command, create_api_command_record, update_command,
  get_api_command_by_idempotency_key,
}
use blackbear_edge_bridge.Api.Call.{PublishResult, JsonResponse, ApiContext, ApiCall, ApiState}
use blackbear_edge_bridge.Api.Handler.{
  plc_command, record_within_ttl, publish_command, run_command, stored_json_response,
  get_duplicate_response,
}
use blackbear_edge_bridge.Api.Idempotent.{IsCommandCall, same_key_repeats}
use blackbear_edge_bridge.Api.Publishing.{Publishes, call-Publishes}

abbrev stop : Command
stop = record { key = "T01"; value = "P" }

abbrev stop_json : Json
stop_json = obj (field "T01" (str "P") end)

abbrev first_body : Json
first_body = obj (
    field "success" (bool true) (
      field "status" (str "published") (
        field "request_id" (str "r1") (
          field "idempotency_key" (str "k1") (
            field "topic" (str "commands")
              (field "payload" stop_json (field "mqtt_mid" (int (pos 7)) end)))))))

-- a decoder that knows two bodies
abbrev context : ApiContext
context = record {
  loads = λ t.
      if t == "stop"
      then accept stop_json
      else if t == "{}"
      then accept first_body
      else reject "Expecting value";
  encode = λ v. "{}";
  encode_payload = λ v. "{ }";
  sha256 = λ t. t;
  topic = "commands";
  idempotency_ttl_seconds = pos 60;
}

abbrev delivered : PublishResult
delivered = record { success = true; rc = pos 0; mid = some (pos 7); error = none }

abbrev call_at : String → Bool → ℕ → ApiCall
call_at request_id too_large now = record {
  request = record {
    request_id = request_id;
    idempotency_key = some "k1";
    username = none;
    remote_address = none;
  };
  too_large = too_large;
  body = "stop";
  now = now;
  is_ready = true;
  is_connected = true;
  readiness_publish = delivered;
  command_publish = delivered;
}

abbrev fresh : ApiState
fresh = record { commands = record { rows = []; next_id = 1 }; published = [] }

valid_command : validate_plc_command stop_json ≡ accept stop
unfolding validate_plc_command validate_entry
valid_command = refl

stop_call : (i : String) (now : ℕ) → IsCommandCall context (call_at i false now) stop
stop_call i now = record {
  small = refl;
  value = stop_json;
  is_json = refl;
  is_valid = valid_command;
}

call-Publishes_example :
    Publishes context
      (call_at "r1" false 5000000)
      fresh
      (plc_command context (call_at "r1" false 5000000) fresh).1
call-Publishes_example = call-Publishes context (call_at "r1" false 5000000) fresh

abbrev first_row : ApiCommandRecord
first_row =
    new_command context.sha256 1 (call_at "r1" false 5000000).request "{}" "commands" 5000000

abbrev stored : ApiState
stored = record { commands = record { rows = first_row ∷ []; next_id = 2 }; published = [] }

past_ttl : record_within_ttl context first_row 99000000 ≡ false
unfolding record_within_ttl
past_ttl = refl

not_taken : is_taken (call_at "r1" false 5000000).request fresh.commands.rows ≡ false
unfolding is_taken
not_taken = refl

first_answer :
    (plc_command context (call_at "r1" false 5000000) fresh).0
    ≡ ok (record { status_code = 200; content = first_body })
unfolding plc_command publish_command run_command stored_json_response get_duplicate_response
    create_api_command_record is_taken update_command get_api_command_by_idempotency_key
    validate_plc_command validate_entry
first_answer = refl

same_response : (a b : JsonResponse) → ◌≡◌ {A = Result JsonResponse} (ok a) (ok b) → a ≡ b
same_response a b h = cc

body_loads :
    (first : JsonResponse)
    → (plc_command context (call_at "r1" false 5000000) fresh).0 ≡ ok first
    → context.loads (context.encode first.content) ≡ accept first.content
body_loads first h =
    rw
      (sym (
        same_response (record { status_code = 200; content = first_body }) first
          (sym first_answer ∙ h)))
      refl

same_key_repeats_example :
    (response : JsonResponse) × ((plc_command context (call_at "r1" false 5000000) fresh).0
      ≡ ok response)
    × (plc_command context
          (call_at "r2" false 9000000)
          (plc_command context (call_at "r1" false 5000000) fresh).1
        ≡ (ok response, (plc_command context (call_at "r1" false 5000000) fresh).1))
same_key_repeats_example =
    same_key_repeats context "k1" (call_at "r1" false 5000000) (call_at "r2" false 9000000) stop
      stop fresh refl refl refl not_taken (stop_call "r1" 5000000) (stop_call "r2" 9000000) refl
      (omega arith) body_loads
