-- ===== src/Mqtt/Publish.antt =====
-- `publish_plc_command`, `publish_ack` and `publish_readiness` of app/mqtt_client.py. What paho's
-- client answers is a parameter of each call.
use blackbear_edge_bridge.Prelude.{
  String, Bool, false, Option, none, some, ℤ, pos, int_eq, if◌then◌else◌,
}
use blackbear_edge_bridge.Api.Call.{PublishResult}

-- `client.publish`: the return code and the message id, or the text of an exception. `shown` is how an
-- f-string shows the return code.
pub data PublishInfo : Type 0 where
  info : ℤ → Option ℤ → String → PublishInfo
  raised : String → PublishInfo

-- MQTT_ERR_SUCCESS, MQTT_ERR_NO_CONN and MQTT_ERR_UNKNOWN of paho
abbrev mqtt_err_success : ℤ
mqtt_err_success = pos 0

abbrev mqtt_err_no_conn : ℤ
mqtt_err_no_conn = pos 4

abbrev mqtt_err_unknown : ℤ
mqtt_err_unknown = pos 13

abbrev pub result_of : PublishInfo → PublishResult
result_of (raised e) = record { success = false; rc = mqtt_err_unknown; mid = none; error = some e }
result_of (info rc mid message) = record {
  success = int_eq rc mqtt_err_success;
  rc = rc;
  mid = mid;
  error = if int_eq rc mqtt_err_success then none else some message;
}

-- connected or not, and what `publish` would answer
unfoldable pub publish_plc_command : Bool → PublishInfo → PublishResult
publish_plc_command connected answer = if connected then result_of answer else record {
  success = false;
  rc = mqtt_err_no_conn;
  mid = none;
  error = some "MQTT broker unavailable";
}

unfoldable pub publish_readiness : PublishInfo → PublishResult
publish_readiness answer = result_of answer

unfoldable pub publish_ack : PublishInfo → Bool
publish_ack (raised e) = false
publish_ack (info rc mid message) = int_eq rc mqtt_err_success
