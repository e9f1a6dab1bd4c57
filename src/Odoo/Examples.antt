-- ===== src/Odoo/Examples.antt =====
-- A server that grants the uid 7, and one whose session expires once.
use blackbear_edge_bridge.Prelude.{◌≡◌, refl, false, none, some, List, [], ◌∷◌, pos}
use blackbear_edge_bridge.Json.{int, str, obj, Fields, end, field}
use blackbear_edge_bridge.Odoo.Client.{
  OdooClientSettings, from_settings, RpcCall, authentication, version, execute_kw, fault, Reply,
  returned, failed, Server, Texts, is_authenticated,
}
use blackbear_edge_bridge.Odoo.Submit.{submit_print_data, is_authentication_fault}
use blackbear_edge_bridge.Odoo.Calls.{Ends, Submission}
use blackbear_edge_bridge.Odoo.Trail.{submit-Submission}
use blackbear_edge_bridge.Odoo.Failures.{Answered, OnlySubmissionError, submit_outcome}
use blackbear_edge_bridge.Odoo.Granted.{SentGranted}
use blackbear_edge_bridge.Odoo.Runs.{submit, check, reset, client_calls, run-SentGranted}

abbrev texts : Texts
texts = record { shown = λ e. "error"; type_name = λ e. "Fault"; lower = λ s. s }

abbrev settings : OdooClientSettings
settings = record {
  url = "https://odoo/";
  database = "db";
  username = "admin";
  password = "secret";
  model = "iot.configuration";
  submit_method = "xmlrpc_submit_print_data";
  timeout = pos 90;
}

abbrev payload : Fields
payload = field "MN" (str "AB 17T01") end

abbrev answers : List RpcCall → RpcCall → Reply
answers cs authentication = returned (int (pos 7))
answers cs version = returned (obj end)
answers (authentication ∷ []) (execute_kw uid fields) = failed (fault "3" "session expired")
answers cs (execute_kw uid fields) = returned (str "done")

-- the first payload meets an expired session
abbrev expiring : Server
expiring = record { answer = answers; now = λ cs. 1000000 }

abbrev refuses : List RpcCall → RpcCall → Reply
refuses cs call = failed (fault "1" "database gone")

abbrev gone : Server
gone = record { answer = refuses; now = λ cs. 0 }

-- both tries, with an authentication before each
sends_again :
    (submit_print_data expiring texts payload (from_settings settings)).1.calls
    ≡ execute_kw (some (pos 7)) payload
      ∷ authentication
      ∷ execute_kw (some (pos 7)) payload
      ∷ authentication
      ∷ []
unfolding submit_print_data from_settings is_authentication_fault
sends_again = refl

submit-Submission_example :
    Submission expiring texts payload none []
      (submit_print_data expiring texts payload (from_settings settings)).1.calls
unfolding from_settings
submit-Submission_example = submit-Submission expiring texts payload (from_settings settings)

submit_outcome_example :
    Ends
      (λ value d. Answered expiring payload value d)
      (λ e d. OnlySubmissionError expiring e)
      (submit_print_data expiring texts payload (from_settings settings))
submit_outcome_example = submit_outcome expiring texts payload (from_settings settings)

no_session : is_authenticated (from_settings settings) ≡ false
unfolding from_settings is_authenticated
no_session = refl

run-SentGranted_example :
    SentGranted expiring
      (client_calls expiring texts
        (check (some (pos 300)) ∷ submit payload ∷ reset ∷ submit payload ∷ [])
        (from_settings settings)).calls
run-SentGranted_example =
    run-SentGranted expiring texts
      (check (some (pos 300)) ∷ submit payload ∷ reset ∷ submit payload ∷ []) settings
