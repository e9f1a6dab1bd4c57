-- ===== src/Api/Call.antt =====
-- What one call of the command API is given and answers: app/api.py, PublishResult of
-- app/mqtt_client.py and the messages of app/command_parser.py.
use Prim.Native.String.{◌++◌ as text_append}
use blackbear_edge_bridge.Prelude.{
  ℕ, String, Bool, false, Option, none, some, List, ℤ, ◌==◌, if◌then◌else◌,
}
use blackbear_edge_bridge.Errors.{Result, ok, raise, Checked}
use blackbear_edge_bridge.Json.{Json, null, bool, int, str, obj, end, field}
use blackbear_edge_bridge.Command.Validate.{
  CommandError, not_an_object, not_one_key, value_not_a_string, empty_value, bad_table_value,
  bad_packet_value, unsupported_key, Command,
}
use blackbear_edge_bridge.Api.Commands.{ApiCommands, ApiRequest}

-- the messages of CommandValidationError
abbrev pub message_of : CommandError → String
message_of not_an_object = "Payload must be a JSON object"
message_of not_one_key = "Payload must contain exactly one top-level key"
message_of value_not_a_string = "Payload value must be a string"
message_of (empty_value key) = text_append key " value must be non-empty"
message_of (bad_table_value key) = text_append key " value must be P, R, or D"
message_of bad_packet_value = "LP value must be FT01, FT02, or FT03"
message_of (unsupported_key key) = text_append "Unsupported command key: " key

-- PublishResult of app/mqtt_client.py, without its topic and payload
pub record PublishResult : Type 0 where
  pub success : Bool
  pub rc : ℤ
  pub mid : Option ℤ
  pub error : Option String

pub record JsonResponse : Type 0 where
  pub status_code : ℕ
  pub content : Json

-- the settings and the outside of one call
pub record ApiContext : Type 0 where
  pub loads : String → Checked String Json
  -- json.dumps of values that serialize: of a response, with compact separators, and of the payload, with
  -- `PLC_JSON_SEPARATORS`
  pub encode : Json → String
  pub encode_payload : Json → String
  pub sha256 : String → String
  pub topic : String
  pub idempotency_ttl_seconds : ℤ

-- one HTTP request with the body too large or decoded, and what its calls meet
pub record ApiCall : Type 0 where
  pub request : ApiRequest
  pub too_large : Bool
  pub body : String
  pub now : ℕ
  pub is_ready : Bool
  pub is_connected : Bool
  pub readiness_publish : PublishResult
  pub command_publish : PublishResult

-- the table, and the commands handed to `publish_plc_command`, oldest first
pub record ApiState : Type 0 where
  pub commands : ApiCommands
  pub published : List Command

-- a statement on the table, and then the rest unless it raises
abbrev pub after {ℓ κ} :
    {A : Type ℓ} {B : Type κ}
    → ApiState
    → Result A × ApiCommands
    → (ApiState → Result B × ApiState)
    → Result B × ApiState
after s (ok a, t) rest = rest (record s { commands = t })
after s (raise e, t) rest = (raise e, record s { commands = t })

-- `not idempotency_key`
abbrev pub usable_key : Option String → Option String
usable_key none = none
usable_key (some k) = if k == "" then none else some k

abbrev pub command_json : Command → Json
command_json c = obj (field c.key (str c.value) end)

abbrev pub optional_json : Option ℤ → Json
optional_json none = null
optional_json (some n) = int n

abbrev pub key_json : Option String → Json
key_json none = null
key_json (some k) = str k

abbrev pub failure_body : String → String → String → Json
failure_body status request_id error = obj (
    field "success" (bool false) (
      field "status" (str status)
        (field "request_id" (str request_id) (field "error" (str error) end))))

abbrev pub error_or_unavailable : Option String → String
error_or_unavailable none = "MQTT broker unavailable"
error_or_unavailable (some e) = if e == "" then "MQTT broker unavailable" else e
