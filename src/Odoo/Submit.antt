-- ===== src/Odoo/Submit.antt =====
-- `submit_print_data` of app/odoo_client.py: one submission, with one more try after a fault that
-- names the authentication.
use Prim.Native.String.{[], ◌∷◌, ◌++◌}
use blackbear_edge_bridge.Prelude.{String, ℤ, Bool, true, false, ◌||◌, ◌==◌, if◌then◌else◌}
use blackbear_edge_bridge.Json.{Json, Fields}
use blackbear_edge_bridge.Odoo.Client.{
  OdooXmlRpcClient, execute_kw, fault, protocol_error, transport_error, other_error, Reply,
  returned, failed, Server, Texts, authentication_error, submission_error, uncaught, Outcome,
  returns, raises, Method, and_then, is_authenticated, invalidate_session, close, log_call,
  authenticate,
}

abbrev pub starts_with : String → String → Bool
starts_with [] t = true
starts_with (c ∷ s) [] = false
starts_with (c ∷ s) (d ∷ t) = if (c ∷ []) == (d ∷ []) then starts_with s t else false

-- marker in text
unfoldable pub occurs_in : String → String → Bool
occurs_in s [] = starts_with s []
occurs_in s (d ∷ t) = starts_with s (d ∷ t) || occurs_in s t

-- `_is_authentication_fault`, of the code and the string of a fault
unfoldable pub is_authentication_fault : Texts → String → String → Bool
unfolding occurs_in
is_authentication_fault texts code string =
    let text = texts.lower (code ++ (" " ++ string)) in
    occurs_in "access denied" text
    || occurs_in "authentication" text
    || occurs_in "session" text
    || occurs_in "login" text
    || occurs_in "password" text
    || occurs_in "uid" text

module _ (server : Server) (texts : Texts) where
  abbrev pub session_ready : ℤ → Method (Unit {0})
  session_ready uid c = (returns tt, c)

  -- `if not self.is_authenticated(): self.authenticate()`
  abbrev pub ensure_session : Method (Unit {0})
  ensure_session c =
      if is_authenticated c
      then (returns tt, c)
      else and_then (authenticate server texts c) session_ready

  -- the `except` clauses of `_submit_print_data`; what a fault does is given
  abbrev pub executed : (String → String → Method Json) → Reply → Method Json
  executed on_fault (returned value) c = (returns value, c)
  executed on_fault (failed (fault code string)) c = on_fault code string c
  executed on_fault (failed (protocol_error code message)) c = (
    raises (submission_error ("Odoo XML-RPC protocol error: " ++ (code ++ (" " ++ message)))),
    close c,
  )
  executed on_fault (failed (transport_error text)) c = (
    raises
        (submission_error ("Odoo XML-RPC transport error: " ++ texts.shown (transport_error text))),
    close c,
  )
  executed on_fault (failed (other_error text)) c = (raises (uncaught (other_error text)), c)

  abbrev pub execute : Fields → (String → String → Method Json) → Method Json
  execute payload on_fault c =
      let call = execute_kw c.uid payload in
      executed on_fault (server.answer c.calls call) (log_call call (record c { models = true }))

  abbrev pub refuse : String → String → Method Json
  refuse code string c =
      (raises (submission_error ("Odoo XML-RPC fault: " ++ texts.shown (fault code string))), c)

  -- `_submit_print_data` with allow_reauth=False
  unfoldable pub submit_again : Fields → Method Json
  unfolding close authenticate is_authenticated
  submit_again payload c = and_then (ensure_session c) (λ _. execute payload refuse)

  -- `except xmlrpc.client.Fault` with allow_reauth=True
  abbrev pub reauthenticate : Fields → String → String → Method Json
  reauthenticate payload code string c =
      if is_authentication_fault texts code string
      then and_then (authenticate server texts (invalidate_session c)) (λ _. submit_again payload)
      else refuse code string c

  -- `_submit_print_data` with allow_reauth=True
  unfoldable pub submit_payload : Fields → Method Json
  unfolding close authenticate is_authenticated invalidate_session submit_again
  submit_payload payload c =
      and_then (ensure_session c) (λ _. execute payload (reauthenticate payload))

  -- the handlers of `submit_print_data`
  abbrev pub as_submission : Outcome Json × OdooXmlRpcClient → Outcome Json × OdooXmlRpcClient
  as_submission (raises (authentication_error text), c) = (raises (submission_error text), c)
  as_submission (raises (submission_error text), c) = (raises (submission_error text), c)
  as_submission (raises (uncaught e), c) = (raises (uncaught e), c)
  as_submission (returns value, c) = (returns value, c)

  unfoldable pub submit_print_data : Fields → Method Json
  unfolding submit_payload
  submit_print_data payload c = as_submission (submit_payload payload c)
