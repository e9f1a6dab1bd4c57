-- ===== src/Odoo/Granted.antt =====
-- With whose uid the client of app/odoo_client.py sends its payloads: what each method keeps.
use blackbear_edge_bridge.Prelude.{
  ◌≡◌, ◌⊎◌, refl, ap, ◌∙◌, ℤ, true, Option, none, some, List, [], ◌∷◌, String, arith, Bool-cases,
  inl, inr,
}
use blackbear_edge_bridge.Json.{Json, Fields}
use blackbear_edge_bridge.Odoo.Client.{
  OdooXmlRpcClient, RpcCall, authentication, version, execute_kw, fault, protocol_error,
  transport_error, other_error, Reply, returned, failed, Server, Texts, ClientError,
  authentication_error, submission_error, uncaught, Outcome, returns, raises, has_session,
  is_authenticated, granted_uid, granted, authenticated, invalidate_session, close, log_call,
  authenticate,
}
use blackbear_edge_bridge.Odoo.Submit.{
  is_authentication_fault, session_ready, ensure_session, executed, execute, refuse, submit_again,
  reauthenticate, submit_payload, as_submission, submit_print_data,
}
use blackbear_edge_bridge.Odoo.Calls.{Ends, and_then-Ends, granted_by}

module _ (server : Server) where
  -- one of the calls is an authentication to which Odoo answered with the uid
  abbrev pub Granted : ℤ → List RpcCall → Type 0
  Granted uid [] = ⊥
  Granted uid (authentication ∷ cs) =
      (granted_by (server.answer cs authentication) ≡ some uid) ⊎ Granted uid cs
  Granted uid (version ∷ cs) = Granted uid cs
  Granted uid (execute_kw o payload ∷ cs) = Granted uid cs

  -- every payload was sent with a uid that Odoo had granted before
  abbrev pub SentGranted : List RpcCall → Type 0
  SentGranted [] = Unit
  SentGranted (authentication ∷ cs) = SentGranted cs
  SentGranted (version ∷ cs) = SentGranted cs
  SentGranted (execute_kw o payload ∷ cs) =
      ((uid : ℤ) × (o ≡ some uid) × Granted uid cs) × SentGranted cs

  -- The uid that is kept was granted, and so was that of every payload.
  pub record IsSession (c : OdooXmlRpcClient) : Type 0 where
    pub held : (uid : ℤ) → c.uid ≡ some uid → Granted uid c.calls
    pub sent : SentGranted c.calls

  abbrev pub Kept : ClientError → OdooXmlRpcClient → Type 0
  Kept e c = IsSession c

  -- a session with a uid
  abbrev Open : OdooXmlRpcClient → Type 0
  Open c = IsSession c × ((uid : ℤ) × (c.uid ≡ some uid))

  open-has :
      (c : OdooXmlRpcClient) (o : Option ℤ)
      → c.uid ≡ o
      → has_session o ≡ true
      → (uid : ℤ) × (c.uid ≡ some uid)
  open-has c none e h = absurd (ground (arith, h))
  open-has c (some uid) e h = (uid, e)

  pub without-IsSession : (c : OdooXmlRpcClient) → c.uid ≡ none → SentGranted c.calls → IsSession c
  without-IsSession c e s = record { held = λ uid h. absurd (ground (arith, e, h)); sent = s }

  module _ (texts : Texts) where
    pub authenticate-IsSession :
        (c : OdooXmlRpcClient)
        → IsSession c
        → Ends (λ uid d. IsSession d × (d.uid ≡ some uid)) Kept (authenticate server texts c)
    unfolding authenticate close invalidate_session
    authenticate-IsSession c s = by_answer (server.answer c.calls authentication) refl
      where
        by_uid :
            (r : Reply) (o : Option ℤ)
            → server.answer c.calls authentication ≡ r
            → granted_by r ≡ o
            → Ends
                (λ uid d. IsSession d × (d.uid ≡ some uid))
                Kept
                (granted server texts o (log_call authentication (record c { common = true })))
        by_uid r none e h = record { held = λ u k. absurd (ground (arith, k)); sent = s.sent }
        by_uid r (some uid) e h =
            (record { held = λ u k. inl (ap granted_by e ∙ (h ∙ k)); sent = s.sent }, refl)

        by_answer :
            (r : Reply)
            → server.answer c.calls authentication ≡ r
            → Ends
                (λ uid d. IsSession d × (d.uid ≡ some uid))
                Kept
                (authenticated server texts r
                  (log_call authentication (record c { common = true })))
        by_answer (returned value) e = by_uid (returned value) (granted_uid value) e refl
        by_answer (failed (fault code string)) e = record {
          held = λ u k. inr (s.held u k);
          sent = s.sent;
        }
        by_answer (failed (protocol_error code message)) e = record {
          held = λ u k. absurd (ground (arith, k));
          sent = s.sent;
        }
        by_answer (failed (transport_error text)) e = record {
          held = λ u k. absurd (ground (arith, k));
          sent = s.sent;
        }
        by_answer (failed (other_error text)) e = record {
          held = λ u k. inr (s.held u k);
          sent = s.sent;
        }

    ensure-Open :
        (c : OdooXmlRpcClient)
        → IsSession c
        → Ends (λ _ d. Open d) Kept (ensure_session server texts c)
    unfolding is_authenticated
    ensure-Open c s = elim (Bool-cases (has_session c.uid)) [
      | inl t ↦ rw t (s, open-has c c.uid refl t)
      | inr f ↦ rw f (
          and_then-Ends (λ uid d. IsSession d × (d.uid ≡ some uid)) (λ _ d. Open d) Kept
            (authenticate server texts c) (session_ready server texts) (authenticate-IsSession c s)
            (λ uid d p. (p.0, (uid, p.1))))
    ]

    module _ (payload : Fields) where
      execute-IsSession :
          (on_fault : String → String → OdooXmlRpcClient → Outcome Json × OdooXmlRpcClient)
          (c : OdooXmlRpcClient)
          → Open c
          → ((code string : String) (d : OdooXmlRpcClient)
              → IsSession d
              → Ends (λ v e. IsSession e) Kept (on_fault code string d))
          → Ends (λ v d. IsSession d) Kept (execute server texts payload on_fault c)
      unfolding close invalidate_session
      execute-IsSession on_fault c (s, (uid, e)) k =
          by_answer (server.answer c.calls (execute_kw c.uid payload))
        where
          kept : IsSession (log_call (execute_kw c.uid payload) (record c { models = true }))
          kept = record { held = λ u h. s.held u h; sent = ((uid, e, s.held uid e), s.sent) }

          by_answer :
              (r : Reply)
              → Ends
                  (λ v d. IsSession d)
                  Kept
                  (executed server texts on_fault r
                    (log_call (execute_kw c.uid payload) (record c { models = true })))
          by_answer (returned value) = kept
          by_answer (failed (fault code string)) =
              k code string (log_call (execute_kw c.uid payload) (record c { models = true })) kept
          by_answer (failed (protocol_error code message)) = record {
            held = λ u h. absurd (ground (arith, h));
            sent = kept.sent;
          }
          by_answer (failed (transport_error text)) = record {
            held = λ u h. absurd (ground (arith, h));
            sent = kept.sent;
          }
          by_answer (failed (other_error text)) = kept

      again-IsSession :
          (c : OdooXmlRpcClient)
          → IsSession c
          → Ends (λ v d. IsSession d) Kept (submit_again server texts payload c)
      unfolding submit_again
      again-IsSession c s =
          and_then-Ends (λ _ d. Open d) (λ v d. IsSession d) Kept (ensure_session server texts c)
            (λ _. execute server texts payload (refuse server texts)) (ensure-Open c s)
            (λ _ d o. execute-IsSession (refuse server texts) d o (λ code string d' s'. s'))

      retry-IsSession :
          (code string : String) (c : OdooXmlRpcClient)
          → IsSession c
          → Ends (λ v d. IsSession d) Kept (reauthenticate server texts payload code string c)
      unfolding invalidate_session
      retry-IsSession code string c s =
          elim (Bool-cases (is_authentication_fault texts code string)) [
            | inl t ↦ rw t (
                and_then-Ends (λ uid d. IsSession d × (d.uid ≡ some uid)) (λ v d. IsSession d) Kept
                  (authenticate server texts (invalidate_session c))
                  (λ _. submit_again server texts payload)
                  (authenticate-IsSession (invalidate_session c)
                    (without-IsSession (invalidate_session c) refl s.sent))
                  (λ _ d p. again-IsSession d p.0))
            | inr f ↦ rw f s
          ]

      pub submit-IsSession :
          (c : OdooXmlRpcClient)
          → IsSession c
          → IsSession (submit_print_data server texts payload c).1
      unfolding submit_print_data submit_payload
      submit-IsSession c s = handled (submit_payload server texts payload c) (
          and_then-Ends (λ _ d. Open d) (λ v d. IsSession d) Kept (ensure_session server texts c)
            (λ _. execute server texts payload (reauthenticate server texts payload))
            (ensure-Open c s)
            (λ _ d o. execute-IsSession (reauthenticate server texts payload) d o retry-IsSession))
        where
          handled :
              (m : Outcome Json × OdooXmlRpcClient)
              → Ends (λ v d. IsSession d) Kept m
              → IsSession (as_submission server texts m).1
          handled (returns v, d) p = p
          handled (raises (authentication_error text), d) p = p
          handled (raises (submission_error text), d) p = p
          handled (raises (uncaught e), d) p = p
