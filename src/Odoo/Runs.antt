-- ===== src/Odoo/Runs.antt =====
-- Readiness checks, and sequences of calls, of the client of app/odoo_client.py.
use blackbear_edge_bridge.Prelude.{
  ◌≡◌, refl, ℤ, Bool, true, false, ◌&&◌, Option, some, List, [], ◌∷◌, arith, if◌then◌else◌,
  Bool-cases, inl, inr,
}
use blackbear_edge_bridge.Json.{Fields, obj, null, bool, int, float, str, arr}
use blackbear_edge_bridge.Odoo.Client.{
  OdooClientSettings, from_settings, OdooXmlRpcClient, RpcCall, authentication, version, fault,
  protocol_error, transport_error, other_error, Reply, returned, failed, Server, Texts, Outcome,
  returns, raises, and_then, has_session, is_authenticated, invalidate_session, close, log_call,
  authenticate, authentication_revalidation_due, revalidation_due, checked, check_readiness,
}
use blackbear_edge_bridge.Odoo.Submit.{submit_print_data}
use blackbear_edge_bridge.Odoo.Calls.{
  Ends, Ends-map, and_then-Ends, authenticate-calls, LoggedIn, LoginFailed,
}
use blackbear_edge_bridge.Odoo.Granted.{
  SentGranted, IsSession, Kept, without-IsSession, authenticate-IsSession, submit-IsSession,
}

-- the methods that the worker, the readiness monitor and app/main.py call
pub data ClientCall : Type 0 where
  submit : Fields → ClientCall
  check : Option ℤ → ClientCall
  log_in : ClientCall
  invalidate : ClientCall
  reset : ClientCall

module _ (server : Server) (texts : Texts) where
  abbrev pub client_call : ClientCall → OdooXmlRpcClient → OdooXmlRpcClient
  client_call (submit payload) c = (submit_print_data server texts payload c).1
  client_call (check seconds) c = (check_readiness server texts seconds c).1
  client_call log_in c = (authenticate server texts c).1
  client_call invalidate c = invalidate_session c
  client_call reset c = close c

  abbrev pub client_calls : List ClientCall → OdooXmlRpcClient → OdooXmlRpcClient
  client_calls [] c = c
  client_calls (o ∷ os) c = client_calls os (client_call o c)

  ended :
      {A : Type 0} (m : Outcome A × OdooXmlRpcClient)
      → Ends (λ a c. IsSession server c) (Kept server) m
      → IsSession server m.1
  ended (returns a, c) p = p
  ended (raises e, c) p = p

  login-IsSession :
      (c : OdooXmlRpcClient)
      → IsSession server c
      → Ends (λ a d. IsSession server d) (Kept server) (authenticate server texts c)
  login-IsSession c s =
      Ends-map (λ uid d. IsSession server d × (d.uid ≡ some uid)) (λ a d. IsSession server d)
        (Kept server) (Kept server) (authenticate server texts c) (λ uid d p. p.0) (λ e d p. p)
        (authenticate-IsSession server texts c s)

  check-IsSession :
      (seconds : Option ℤ) (c : OdooXmlRpcClient)
      → IsSession server c
      → IsSession server (check_readiness server texts seconds c).1
  unfolding check_readiness close invalidate_session
  check-IsSession seconds c s =
      by_answer (server.answer c.calls version) (log_call version (record c { common = true }))
        (record { held = λ u h. s.held u h; sent = s.sent })
    where
      by_answer :
          (r : Reply) (d : OdooXmlRpcClient)
          → IsSession server d
          → IsSession server (checked server texts seconds r d).1
      by_answer (returned (obj fields)) d k =
          elim (Bool-cases (authentication_revalidation_due server texts seconds d)) [
            | inl t ↦ rw t (
                ended (and_then (authenticate server texts d) (λ _ d'. (returns true, d'))) (
                  and_then-Ends (λ uid d'. IsSession server d') (λ b d'. IsSession server d')
                    (Kept server) (authenticate server texts d) (λ _ d'. (returns true, d'))
                    (login-IsSession d k) (λ uid d' p. p)))
            | inr f ↦ rw f k
          ]
      by_answer (returned null) d k = k
      by_answer (returned (bool b)) d k = k
      by_answer (returned (int n)) d k = k
      by_answer (returned (float x)) d k = k
      by_answer (returned (str x)) d k = k
      by_answer (returned (arr x)) d k = k
      by_answer (failed (fault code string)) d k = k
      by_answer (failed (protocol_error code message)) d k = record {
        held = λ u h. absurd (ground (arith, h));
        sent = k.sent;
      }
      by_answer (failed (transport_error text)) d k = record {
        held = λ u h. absurd (ground (arith, h));
        sent = k.sent;
      }
      by_answer (failed (other_error text)) d k = k

  run-IsSession :
      (os : List ClientCall) (c : OdooXmlRpcClient)
      → IsSession server c
      → IsSession server (client_calls os c)
  unfolding invalidate_session close
  run-IsSession [] c s = s
  run-IsSession (submit payload ∷ os) c s =
      run-IsSession os (submit_print_data server texts payload c).1
        (submit-IsSession server texts payload c s)
  run-IsSession (check seconds ∷ os) c s =
      run-IsSession os (check_readiness server texts seconds c).1 (check-IsSession seconds c s)
  run-IsSession (log_in ∷ os) c s =
      run-IsSession os (authenticate server texts c).1
        (ended (authenticate server texts c) (login-IsSession c s))
  run-IsSession (invalidate ∷ os) c s =
      run-IsSession os (invalidate_session c)
        (without-IsSession server (invalidate_session c) refl s.sent)
  run-IsSession (reset ∷ os) c s =
      run-IsSession os (close c) (without-IsSession server (close c) refl s.sent)

-- Whatever calls are made of a new client, in any order, and whatever Odoo answers: every payload that
-- Odoo receives comes with a uid that Odoo granted to an earlier authentication of this client.
pub run-SentGranted :
    (server : Server) (texts : Texts) (os : List ClientCall) (settings : OdooClientSettings)
    → SentGranted server (client_calls server texts os (from_settings settings)).calls
unfolding from_settings
run-SentGranted server texts os settings =
    let s : IsSession server (client_calls server texts os (from_settings settings)) =
      run-IsSession server texts os (from_settings settings)
        (record { held = λ u h. absurd (ground (arith, h)); sent = tt }) in
    s.sent

abbrev pub is_dict : Reply → Bool
is_dict (returned (obj fields)) = true
is_dict (returned value) = false
is_dict (failed e) = false

-- A readiness check sends no payload: Odoo receives the version call, and after it an authentication
-- exactly when Odoo answered with a dict and the session has to be validated again.
pub check_calls :
    (server : Server) (texts : Texts) (seconds : Option ℤ) (c : OdooXmlRpcClient)
    → let due =
        revalidation_due seconds
          (is_authenticated c)
          c.last_authenticated_at
          (server.now (version ∷ c.calls)) in
      (check_readiness server texts seconds c).1.calls ≡ (
        if is_dict (server.answer c.calls version) && due
        then authentication ∷ version ∷ c.calls
        else version ∷ c.calls)
unfolding check_readiness close invalidate_session authentication_revalidation_due is_authenticated
check_calls server texts seconds c = by_answer (server.answer c.calls version)
  where
    after :
        (m : Outcome ℤ × OdooXmlRpcClient) (cs : List RpcCall)
        → Ends (λ uid d. d.calls ≡ cs) (λ e d. d.calls ≡ cs) m
        → (and_then m (λ _ d. (returns true, d))).1.calls ≡ cs
    after (returns uid, d) cs p = p
    after (raises e, d) cs p = p

    by_answer :
        (r : Reply)
        → (checked server texts seconds r (log_call version (record c { common = true }))).1.calls
          ≡ (if is_dict r
                && revalidation_due seconds
                    (is_authenticated c)
                    c.last_authenticated_at
                    (server.now (version ∷ c.calls))
              then authentication ∷ version ∷ c.calls
              else version ∷ c.calls)
    by_answer (returned (obj fields)) =
        elim (Bool-cases (
          revalidation_due seconds (has_session c.uid) c.last_authenticated_at
            (server.now (version ∷ c.calls)))) [
              | inl t ↦ rw t (
                  after (authenticate server texts (log_call version (record c { common = true })))
                    (authentication ∷ version ∷ c.calls)
                    (Ends-map (LoggedIn server texts (version ∷ c.calls))
                      (λ uid d. d.calls ≡ authentication ∷ version ∷ c.calls)
                      (LoginFailed server texts (version ∷ c.calls))
                      (λ e d. d.calls ≡ authentication ∷ version ∷ c.calls)
                      (authenticate server texts (log_call version (record c { common = true })))
                      (λ uid d p. p.0) (λ e d p. p.0)
                      (authenticate-calls server texts
                        (log_call version (record c { common = true })))))
              | inr f ↦ rw f refl
            ]
    by_answer (returned null) = refl
    by_answer (returned (bool b)) = refl
    by_answer (returned (int n)) = refl
    by_answer (returned (float x)) = refl
    by_answer (returned (str x)) = refl
    by_answer (returned (arr x)) = refl
    by_answer (failed (fault code string)) = refl
    by_answer (failed (protocol_error code message)) = refl
    by_answer (failed (transport_error text)) = refl
    by_answer (failed (other_error text)) = refl
