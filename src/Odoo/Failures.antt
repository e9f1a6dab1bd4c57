-- ===== src/Odoo/Failures.antt =====
-- What a submission of app/odoo_client.py returns, and what it raises.
use blackbear_edge_bridge.Prelude.{
  ◌≡◌, refl, ℤ, true, false, Option, none, some, List, ◌∷◌, String, Bool-cases, inl, inr,
}
use blackbear_edge_bridge.Json.{Json, Fields}
use blackbear_edge_bridge.Odoo.Client.{
  OdooXmlRpcClient, RpcCall, authentication, execute_kw, fault, protocol_error, transport_error,
  other_error, Reply, returned, failed, Server, Texts, ClientError, authentication_error,
  submission_error, uncaught, Outcome, returns, raises, is_authenticated, granted_uid, granted,
  authenticated, invalidate_session, close, log_call, authenticate,
}
use blackbear_edge_bridge.Odoo.Submit.{
  is_authentication_fault, session_ready, ensure_session, executed, execute, refuse, submit_again,
  reauthenticate, submit_payload, as_submission, submit_print_data,
}
use blackbear_edge_bridge.Odoo.Calls.{Ends, and_then-Ends}

module _ (server : Server) where
  -- why an exception leaves `_submit_print_data`
  abbrev Explained : ClientError → Type 0
  Explained (authentication_error text) = Unit
  Explained (submission_error text) = Unit
  Explained (uncaught (fault code string)) =
      (cs : List RpcCall) × (server.answer cs authentication ≡ failed (fault code string))
  Explained (uncaught (protocol_error code message)) = ⊥
  Explained (uncaught (transport_error text)) = ⊥
  Explained (uncaught (other_error text)) =
      (cs : List RpcCall) × (call : RpcCall) × (server.answer cs call ≡ failed (other_error text))

  -- The exception is OdooSubmissionError; or a fault with which Odoo answered an authentication, or an
  -- exception of a call that is neither a fault nor a transport error.
  abbrev pub OnlySubmissionError : ClientError → Type 0
  OnlySubmissionError (authentication_error text) = ⊥
  OnlySubmissionError (submission_error text) = Unit
  OnlySubmissionError (uncaught e) = Explained (uncaught e)

  -- the value is the answer to the payload that was sent last
  abbrev pub Answered : Fields → Json → OdooXmlRpcClient → Type 0
  Answered payload value c =
      (uid : Option ℤ) × (cs : List RpcCall) × (c.calls ≡ execute_kw uid payload ∷ cs)
      × (server.answer cs (execute_kw uid payload) ≡ returned value)

  module _ (texts : Texts) where
    authenticate-Explained :
        (c : OdooXmlRpcClient)
        → Ends (λ _ _. Unit {0}) (λ e _. Explained e) (authenticate server texts c)
    unfolding authenticate close
    authenticate-Explained c = by_answer (server.answer c.calls authentication) refl
      where
        by_uid :
            (o : Option ℤ) (c' : OdooXmlRpcClient)
            → Ends (λ _ _. Unit {0}) (λ e _. Explained e) (granted server texts o c')
        by_uid none c' = tt
        by_uid (some uid) c' = tt

        by_answer :
            (r : Reply)
            → server.answer c.calls authentication ≡ r
            → Ends
                (λ _ _. Unit {0})
                (λ e _. Explained e)
                (authenticated server texts r
                  (log_call authentication (record c { common = true })))
        by_answer (returned value) e =
            by_uid (granted_uid value) (log_call authentication (record c { common = true }))
        by_answer (failed (fault code string)) e = (c.calls, e)
        by_answer (failed (protocol_error code message)) e = tt
        by_answer (failed (transport_error text)) e = tt
        by_answer (failed (other_error text)) e = (c.calls, authentication, e)

    ensure-Explained :
        (c : OdooXmlRpcClient)
        → Ends (λ _ _. Unit {0}) (λ e _. Explained e) (ensure_session server texts c)
    ensure-Explained c = elim (Bool-cases (is_authenticated c)) [
      | inl s ↦ rw s tt
      | inr s ↦ rw s (
          and_then-Ends (λ _ _. Unit) (λ _ _. Unit) (λ e _. Explained e)
            (authenticate server texts c) (session_ready server texts) (authenticate-Explained c)
            (λ uid d p. tt))
    ]

    module _ (payload : Fields) where
      abbrev IsExplained : Outcome Json × OdooXmlRpcClient → Type 0
      IsExplained = Ends (λ v c. Answered payload v c) (λ e c. Explained e)

      execute-Explained :
          (on_fault : String → String → OdooXmlRpcClient → Outcome Json × OdooXmlRpcClient)
          (c : OdooXmlRpcClient)
          → ((code string : String) (d : OdooXmlRpcClient) → IsExplained (on_fault code string d))
          → IsExplained (execute server texts payload on_fault c)
      unfolding close
      execute-Explained on_fault c k =
          by_answer (server.answer c.calls (execute_kw c.uid payload)) refl
        where
          by_answer :
              (r : Reply)
              → server.answer c.calls (execute_kw c.uid payload) ≡ r
              → IsExplained (
                  executed server texts on_fault r
                    (log_call (execute_kw c.uid payload) (record c { models = true })))
          by_answer (returned value) e = (c.uid, c.calls, refl, e)
          by_answer (failed (fault code string)) e =
              k code string (log_call (execute_kw c.uid payload) (record c { models = true }))
          by_answer (failed (protocol_error code message)) e = tt
          by_answer (failed (transport_error text)) e = tt
          by_answer (failed (other_error text)) e = (c.calls, execute_kw c.uid payload, e)

      again-Explained : (c : OdooXmlRpcClient) → IsExplained (submit_again server texts payload c)
      unfolding submit_again
      again-Explained c =
          and_then-Ends (λ _ _. Unit) (λ v d. Answered payload v d) (λ e _. Explained e)
            (ensure_session server texts c)
            (λ _. execute server texts payload (refuse server texts)) (ensure-Explained c)
            (λ _ d _. execute-Explained (refuse server texts) d (λ code string d'. tt))

      retry-Explained :
          (code string : String) (c : OdooXmlRpcClient)
          → IsExplained (reauthenticate server texts payload code string c)
      retry-Explained code string c =
          elim (Bool-cases (is_authentication_fault texts code string)) [
            | inl t ↦ rw t (
                and_then-Ends (λ _ _. Unit) (λ v d. Answered payload v d) (λ e _. Explained e)
                  (authenticate server texts (invalidate_session c))
                  (λ _. submit_again server texts payload)
                  (authenticate-Explained (invalidate_session c)) (λ _ d _. again-Explained d))
            | inr f ↦ rw f tt
          ]

-- A submission that returns gives Odoo's answer to the payload that it sent last. It raises
-- OdooSubmissionError only, unless Odoo answers an authentication with a fault, or a call raises an
-- exception that is neither a fault nor a transport error; then it raises that one.
pub submit_outcome :
    (server : Server) (texts : Texts) (payload : Fields) (c : OdooXmlRpcClient)
    → Ends
        (λ value d. Answered server payload value d)
        (λ e d. OnlySubmissionError server e)
        (submit_print_data server texts payload c)
unfolding submit_print_data submit_payload
submit_outcome server texts payload c = handled (submit_payload server texts payload c) (
    and_then-Ends (λ _ _. Unit) (λ v d. Answered server payload v d) (λ e _. Explained server e)
      (ensure_session server texts c)
      (λ _. execute server texts payload (reauthenticate server texts payload))
      (ensure-Explained server texts c)
      (λ _ d _.
        execute-Explained server texts payload (reauthenticate server texts payload) d
          (retry-Explained server texts payload)))
  where
    handled :
        (m : Outcome Json × OdooXmlRpcClient)
        → IsExplained server texts payload m
        → Ends
            (λ value d. Answered server payload value d)
            (λ e d. OnlySubmissionError server e)
            (as_submission server texts m)
    handled (returns v, d) p = p
    handled (raises (authentication_error text), d) p = tt
    handled (raises (submission_error text), d) p = tt
    handled (raises (uncaught e), d) p = p

-- The login fault escapes: when the client has no session and Odoo answers the authentication with a
-- fault, the submission raises that fault and not OdooSubmissionError, and the proxies stay.
pub login_fault_escapes :
    (server : Server) (texts : Texts) (payload : Fields) (c : OdooXmlRpcClient)
    (code string : String)
    → is_authenticated c ≡ false
    → server.answer c.calls authentication ≡ failed (fault code string)
    → submit_print_data server texts payload c ≡ (
      raises (uncaught (fault code string)),
      record c { common = true; calls = authentication ∷ c.calls },
    )
unfolding submit_print_data submit_payload
login_fault_escapes server texts payload c code string s e = rw s (rw (login e) refl)
  where
    login :
        server.answer c.calls authentication ≡ failed (fault code string)
        → authenticate server texts c ≡ (
          raises (uncaught (fault code string)),
          record c { common = true; calls = authentication ∷ c.calls },
        )
    login e = rw (authenticate, e) refl
