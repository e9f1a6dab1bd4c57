-- ===== src/Worker/ChildExamples.antt =====
-- The worker and the client of Odoo together, on one stored message.
use blackbear_edge_bridge.Prelude.{◌≡◌, refl, Bool, some, List, [], ◌∷◌, pos}
use blackbear_edge_bridge.Json.{bool, int, obj, end}
use blackbear_edge_bridge.Queue.Message.{completed}
use blackbear_edge_bridge.Odoo.Client.{
  OdooClientSettings, RpcCall, authentication, version, execute_kw, Reply, returned, Server, Texts,
}
use blackbear_edge_bridge.Worker.Process.{process_record}
use blackbear_edge_bridge.Worker.Outcome.{Leaves}
use blackbear_edge_bridge.Worker.Child.{
  payload_fields, submission_in_child, submit_payload_in_child, delivered,
}
use blackbear_edge_bridge.Worker.Examples.{
  response, codec, stored, before, settings, clock, messages-IsValid, found, valid_payload,
  with_ack,
}

abbrev texts : Texts
texts = record { shown = λ e. "error"; type_name = λ e. "Fault"; lower = λ s. s }

abbrev client : OdooClientSettings
client = record {
  url = "https://odoo";
  database = "db";
  username = "admin";
  password = "secret";
  model = "iot.configuration";
  submit_method = "xmlrpc_submit_print_data";
  timeout = pos 90;
}

abbrev grants : List RpcCall → RpcCall → Reply
grants cs authentication = returned (int (pos 7))
grants cs version = returned (obj end)
grants cs (execute_kw uid fields) = returned response

abbrev granting : Server
granting = record { answer = grants; now = λ cs. 0 }

abbrev denies : List RpcCall → RpcCall → Reply
denies cs call = returned (bool Bool.false)

abbrev denying : Server
denying = record { answer = denies; now = λ cs. 0 }

delivered_example :
    Leaves 1 completed ("A1" ∷ []) (
      process_record codec settings clock
        (submit_payload_in_child granting texts client "0")
        stored
        before)
    × ((submission_in_child granting texts client "0" ("MN", "AB 17T01")).1.calls
        ≡ execute_kw (some (pos 7)) (payload_fields ("MN", "AB 17T01")) ∷ authentication ∷ [])
delivered_example =
    delivered granting texts client "0" codec settings clock stored stored before messages-IsValid
      found ("MN", "AB 17T01") valid_payload (int (pos 7)) response (pos 7) "response" "A1" refl
      refl refl refl with_ack
