-- ===== src/Odoo/Trail.antt =====
-- The calls of one submission of app/odoo_client.py, against their specification.
use blackbear_edge_bridge.Prelude.{
  ◌≡◌, ◌∙◌, refl, ap, ℤ, true, false, Option, none, some, List, ◌∷◌, arith, Bool-cases, inl, inr,
}
use blackbear_edge_bridge.Json.{Json, Fields}
use blackbear_edge_bridge.Odoo.Client.{
  OdooXmlRpcClient, RpcCall, authentication, execute_kw, fault, protocol_error, transport_error,
  other_error, Reply, returned, failed, Server, Texts, authentication_error, submission_error,
  uncaught, Outcome, returns, raises, and_then, has_session, is_authenticated, invalidate_session,
  close, log_call, authenticate,
}
use blackbear_edge_bridge.Odoo.Submit.{
  is_authentication_fault, session_ready, ensure_session, executed, execute, refuse, submit_again,
  reauthenticate, submit_payload, as_submission, submit_print_data,
}
use blackbear_edge_bridge.Odoo.Calls.{
  Ends, Ends-map, and_then-Ends, granted_by-positive, LoggedIn, LoginFailed, authenticate-at,
  is_expired, answer_to, Opened, at_once, after_login, Submission, unsent, sent, logged_in_again,
  sent_again,
}

session-uid : (o : Option ℤ) → has_session o ≡ true → (uid : ℤ) × (o ≡ some uid)
session-uid none h = absurd (ground (arith, h))
session-uid (some uid) h = (uid, refl)

module _ (server : Server) (texts : Texts) (payload : Fields) (held : Option ℤ)
    (before : List RpcCall) where
  abbrev Within : OdooXmlRpcClient → Type 0
  Within c = Submission server texts payload held before c.calls

  abbrev Stays : Outcome Json × OdooXmlRpcClient → Type 0
  Stays = Ends (λ v c. Within c) (λ e c. Within c)

  -- a session, and the payload not sent yet
  abbrev Ready : OdooXmlRpcClient → Type 0
  Ready c = (uid : ℤ) × (c.uid ≡ some uid) × Opened server texts payload held before uid c.calls

  ensure-Ready :
      (c : OdooXmlRpcClient)
      → c.calls ≡ before
      → c.uid ≡ held
      → Ends (λ _ c'. Ready c') (λ e c'. Within c') (ensure_session server texts c)
  unfolding is_authenticated
  ensure-Ready c h k = elim (Bool-cases (has_session c.uid)) [
    | inl s ↦
        let (uid, e) = session-uid c.uid s in rw s (uid, e, rw h (at_once (rw k at e) (rw k at s)))
    | inr s ↦ rw s (
        and_then_login (rw k at s) (authenticate server texts c)
          (authenticate-at server texts c before h))
  ]
    where
      and_then_login :
          has_session held ≡ false
          → (m : Outcome ℤ × OdooXmlRpcClient)
          → Ends (LoggedIn server texts before) (LoginFailed server texts before) m
          → Ends (λ _ c'. Ready c') (λ e c'. Within c') (and_then m (session_ready server texts))
      and_then_login s (returns uid, c') (h, e, g) = (uid, e, rw h (after_login s g))
      and_then_login s (raises x, c') (h, g) = rw h (unsent s g)

  module _ (cs : List RpcCall) (uid : ℤ) (opened : Opened server texts payload held before uid cs)
      (expired : is_expired server texts (answer_to server texts payload cs uid) ≡ true) where
    -- the second time
    again :
        (u : ℤ) (c : OdooXmlRpcClient)
        → LoggedIn server texts (execute_kw (some uid) payload ∷ cs) u c
        → Stays (submit_again server texts payload c)
    unfolding submit_again close invalidate_session is_authenticated
    again u c (h, e, g) =
        let session : has_session c.uid ≡ true =
          ap has_session e
          ∙ granted_by-positive (server.answer (execute_kw (some uid) payload ∷ cs) authentication)
              u g in
        rw session (by_answer (server.answer c.calls (execute_kw c.uid payload)))
      where
        resent : Submission server texts payload held before (execute_kw c.uid payload ∷ c.calls)
        resent = rw (e, h) (sent_again uid u opened expired g)

        by_answer :
            (r : Reply)
            → Stays (
                executed server texts
                  (refuse server texts)
                  r
                  (log_call (execute_kw c.uid payload) (record c { models = true })))
        by_answer (returned value) = resent
        by_answer (failed (fault code string)) = resent
        by_answer (failed (protocol_error code message)) = resent
        by_answer (failed (transport_error text)) = resent
        by_answer (failed (other_error text)) = resent

    -- the authentication after the fault, and the second time
    login_again :
        (c : OdooXmlRpcClient)
        → c.calls ≡ execute_kw (some uid) payload ∷ cs
        → Stays (and_then (authenticate server texts c) (λ _. submit_again server texts payload))
    login_again c h =
        and_then-Ends (LoggedIn server texts (execute_kw (some uid) payload ∷ cs)) (λ v d. Within d)
          (λ x d. Within d) (authenticate server texts c) (λ _. submit_again server texts payload)
          (Ends-map (LoggedIn server texts (execute_kw (some uid) payload ∷ cs))
            (LoggedIn server texts (execute_kw (some uid) payload ∷ cs))
            (LoginFailed server texts (execute_kw (some uid) payload ∷ cs)) (λ x d. Within d)
            (authenticate server texts c) (λ u d p. p)
            (λ x d p. rw p.0 (logged_in_again uid opened expired p.1))
            (authenticate-at server texts c (execute_kw (some uid) payload ∷ cs) h))
          again

  -- the first time
  first :
      (c : OdooXmlRpcClient) (u : Unit {0})
      → Ready c
      → Stays (execute server texts payload (reauthenticate server texts payload) c)
  unfolding close invalidate_session
  first c u (uid, e, opened) = by_answer (server.answer c.calls (execute_kw c.uid payload)) refl
    where
      answered :
          (r : Reply)
          → server.answer c.calls (execute_kw c.uid payload) ≡ r
          → is_expired server texts (answer_to server texts payload c.calls uid)
            ≡ is_expired server texts r
      answered r h = ap (is_expired server texts) (rw e at h)

      once :
          is_expired server texts (answer_to server texts payload c.calls uid) ≡ false
          → Submission server texts payload held before (execute_kw c.uid payload ∷ c.calls)
      once k = rw e (sent uid opened k)

      by_answer :
          (r : Reply)
          → server.answer c.calls (execute_kw c.uid payload) ≡ r
          → Stays (
              executed server texts
                (reauthenticate server texts payload)
                r
                (log_call (execute_kw c.uid payload) (record c { models = true })))
      by_answer (returned value) h = once (answered _ h)
      by_answer (failed (fault code string)) h =
          elim (Bool-cases (is_authentication_fault texts code string)) [
            | inl t ↦ rw t (
                login_again c.calls uid opened (answered _ h ∙ t)
                  (invalidate_session
                    (log_call (execute_kw c.uid payload) (record c { models = true })))
                  (ap (λ o. execute_kw o payload ∷ c.calls) e))
            | inr f ↦ rw f (once (answered _ h ∙ f))
          ]
      by_answer (failed (protocol_error code message)) h = once (answered _ h)
      by_answer (failed (transport_error text)) h = once (answered _ h)
      by_answer (failed (other_error text)) h = once (answered _ h)

-- What Odoo receives from one submission follows the specification. The client authenticates first only
-- without a session; when Odoo then grants no uid, the payload is not sent. Otherwise the payload that was
-- given is sent with the uid of the session or the uid granted. It is sent once, unless Odoo answers with a
-- fault that names the authentication: then the client authenticates, and sends it a second and last time
-- with the uid that Odoo grants, if it grants one.
pub submit-Submission :
    (server : Server) (texts : Texts) (payload : Fields) (c : OdooXmlRpcClient)
    → Submission server texts payload c.uid c.calls
        (submit_print_data server texts payload c).1.calls
unfolding submit_print_data submit_payload
submit-Submission server texts payload c = either_way (submit_payload server texts payload c) (
    and_then-Ends (λ _. Ready server texts payload c.uid c.calls)
      (λ v d. Within server texts payload c.uid c.calls d)
      (λ x d. Within server texts payload c.uid c.calls d) (ensure_session server texts c)
      (λ _. execute server texts payload (reauthenticate server texts payload))
      (ensure-Ready server texts payload c.uid c.calls c refl refl)
      (λ u d r. first server texts payload c.uid c.calls d u r))
  where
    either_way :
        (m : Outcome Json × OdooXmlRpcClient)
        → Ends
            (λ v d. Within server texts payload c.uid c.calls d)
            (λ x d. Within server texts payload c.uid c.calls d)
            m
        → Submission server texts payload c.uid c.calls (as_submission server texts m).1.calls
    either_way (returns v, d) p = p
    either_way (raises (authentication_error text), d) p = p
    either_way (raises (submission_error text), d) p = p
    either_way (raises (uncaught e), d) p = p
