-- ===== src/Worker/Response.antt =====
-- How the worker reads a stored payload and a response of Odoo: app/queue_worker.py.
-- A response is a value as the json module knows them, whichever way it came.
use Prim.Native.String.{◌++◌}
use blackbear_edge_bridge.Prelude.{
  String, Bool, true, false, Option, none, some, ℤ, ◌==◌, if◌then◌else◌,
}
use blackbear_edge_bridge.Errors.{Checked, accept, reject}
use blackbear_edge_bridge.Text.{last_three, strip}
use blackbear_edge_bridge.Json.{Json, bool, int, str, obj, Fields, end, field, get, Codec}
use blackbear_edge_bridge.Plc.Parser.{supported_type, supported_table}
use blackbear_edge_bridge.Production.Tables.{Metadata, no_metadata}

abbrev payload_value : String → Json → Checked String (String × String)
payload_value message_type (str value) =
    if supported_table (last_three value)
    then accept (message_type, value)
    else reject "Payload value must end in T01, T02, or T03"
payload_value message_type _ =
    reject ("Payload value for " ++ (message_type ++ " must be a string"))

abbrev payload_fields : Fields → Checked String (String × String)
payload_fields end = reject "Raw payload must contain exactly one top-level key"
payload_fields (field message_type value end) =
    if supported_type message_type
    then payload_value message_type value
    else reject ("Unsupported message type for Odoo submission: " ++ message_type)
payload_fields (field k v (field k' v' fs)) =
    reject "Raw payload must contain exactly one top-level key"

abbrev payload_loaded : Checked String Json → Checked String (String × String)
payload_loaded (reject message) = reject ("Malformed raw JSON: " ++ message)
payload_loaded (accept (obj fs)) = payload_fields fs
payload_loaded (accept _) = reject "Raw payload must be a JSON object"

-- The one entry of the payload, or the text of the ValueError.
unfoldable pub payload_from_record : Codec → String → Checked String (String × String)
payload_from_record codec raw_payload = payload_loaded (codec.loads raw_payload)

-- `response.get("success") is True`
abbrev pub is_true : Option Json → Bool
is_true (some (bool true)) = true
is_true _ = false

-- a string that is not empty
abbrev pub optional_str : Option Json → Option String
optional_str (some (str s)) = if s == "" then none else some s
optional_str _ = none

abbrev pub optional_int : Option Json → Option ℤ
optional_int (some (int n)) = some n
optional_int _ = none

abbrev pub ack_of : Option Json → Option String
ack_of (some (obj result)) = optional_str (get "ACK" result)
ack_of _ = none

unfoldable pub extract_ack : Json → Option String
extract_ack (obj fs) = if is_true (get "success" fs) then ack_of (get "result" fs) else none
extract_ack _ = none

abbrev pub dashboard_fields : Option Json → Metadata
dashboard_fields (some (obj result)) = record {
  customer_id = optional_int (get "customer_id" result);
  customer_name = optional_str (get "customer_name" result);
  operator_id = optional_int (get "operator_id" result);
  operator_name = optional_str (get "operator_name" result);
  number_of_operators = optional_int (get "number_of_operators" result);
  batch_number = optional_str (get "batch_number" result);
}
dashboard_fields _ = no_metadata

unfoldable pub extract_dashboard_metadata : Json → Metadata
extract_dashboard_metadata (obj fs) = dashboard_fields (get "result" fs)
extract_dashboard_metadata _ = no_metadata

abbrev business_failure : Option Json → String
business_failure (some (str e)) = if e == "" then "Odoo business operation failed" else e
business_failure _ = "Odoo business operation failed"

abbrev pub success_flag : Option Json → Option Json → Option String
success_flag (some (bool true)) error = none
success_flag (some (bool false)) error = some (business_failure error)
success_flag _ error = some "Invalid Odoo response: missing success flag"

unfoldable pub get_odoo_business_error : Json → Option String
get_odoo_business_error (obj fs) = success_flag (get "success" fs) (get "error" fs)
get_odoo_business_error _ = some "Invalid Odoo response: missing success flag"

-- NON_RETRYABLE_BUSINESS_ERRORS
unfoldable pub is_non_retryable_business_error : String → Bool
is_non_retryable_business_error error = strip error == "Nothing to check the availability for."
