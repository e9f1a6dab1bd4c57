-- ===== src/Odoo/Calls.antt =====
-- What Odoo receives from one submission and from one check of the readiness.
use blackbear_edge_bridge.Prelude.{
  ◌≡◌, refl, ap, ℤ, Bool, true, false, Option, none, some, List, ◌∷◌, arith,
}
use mathlib.Core.Path.{subst}
use blackbear_edge_bridge.Json.{Json, bool, int, obj, null, float, str, arr, Fields}
use blackbear_edge_bridge.Odoo.Client.{
  OdooXmlRpcClient, RpcCall, authentication, execute_kw, fault, protocol_error, transport_error,
  other_error, Reply, returned, failed, Server, Texts, ClientError, Outcome, returns, raises,
  and_then, has_session, invalidate_session, close, granted_uid, log_call, granted, authenticated,
  authenticate,
}
use blackbear_edge_bridge.Odoo.Submit.{is_authentication_fault}

-- what holds of a value and the client when a method returns, and of an error and the client when it raises
abbrev pub Ends {ℓ κ} :
    {A : Type ℓ}
    → (A → OdooXmlRpcClient → Type κ)
    → (ClientError → OdooXmlRpcClient → Type κ)
    → Outcome A × OdooXmlRpcClient
    → Type κ
Ends P R (returns a, c) = P a c
Ends P R (raises e, c) = R e c

pub and_then-Ends {ℓ κ μ} :
    {A : Type ℓ} {B : Type κ} (P : A → OdooXmlRpcClient → Type μ)
    (Q : B → OdooXmlRpcClient → Type μ) (R : ClientError → OdooXmlRpcClient → Type μ)
    (m : Outcome A × OdooXmlRpcClient) (rest : A → OdooXmlRpcClient → Outcome B × OdooXmlRpcClient)
    → Ends P R m
    → ((a : A) (c : OdooXmlRpcClient) → P a c → Ends Q R (rest a c))
    → Ends Q R (and_then m rest)
and_then-Ends P Q R (returns a, c) rest p k = k a c p
and_then-Ends P Q R (raises e, c) rest p k = p

pub Ends-map {ℓ κ} :
    {A : Type ℓ} (P Q : A → OdooXmlRpcClient → Type κ)
    (R S : ClientError → OdooXmlRpcClient → Type κ) (m : Outcome A × OdooXmlRpcClient)
    → ((a : A) (c : OdooXmlRpcClient) → P a c → Q a c)
    → ((e : ClientError) (c : OdooXmlRpcClient) → R e c → S e c)
    → Ends P R m
    → Ends Q S m
Ends-map P Q R S (returns a, c) f g p = f a c p
Ends-map P Q R S (raises e, c) f g p = g e c p

-- a uid that Odoo grants is positive
pub granted-positive :
    (value : Json) (uid : ℤ) → granted_uid value ≡ some uid → has_session (some uid) ≡ true
granted-positive null uid h = absurd (ground (arith, h))
granted-positive (bool true) uid h = ground (arith, h)
granted-positive (bool false) uid h = absurd (ground (arith, h))
granted-positive (int n) uid h = ground (arith, h)
granted-positive (float s) uid h = absurd (ground (arith, h))
granted-positive (str s) uid h = absurd (ground (arith, h))
granted-positive (arr xs) uid h = absurd (ground (arith, h))
granted-positive (obj fs) uid h = absurd (ground (arith, h))

-- the uid that an answer to an authentication grants
abbrev pub granted_by : Reply → Option ℤ
granted_by (returned value) = granted_uid value
granted_by (failed e) = none

pub granted_by-positive :
    (r : Reply) (uid : ℤ) → granted_by r ≡ some uid → has_session (some uid) ≡ true
granted_by-positive (returned value) uid h = granted-positive value uid h
granted_by-positive (failed e) uid h = absurd (ground (arith, h))

module _ (server : Server) where
  -- the uid that Odoo grants after some calls
  abbrev pub grants : List RpcCall → Option ℤ
  grants cs = granted_by (server.answer cs authentication)

module _ (server : Server) (texts : Texts) where
  -- an authentication after some calls that returns a uid, and one that raises
  abbrev pub LoggedIn : List RpcCall → ℤ → OdooXmlRpcClient → Type 0
  LoggedIn cs uid c =
      (c.calls ≡ authentication ∷ cs) × (c.uid ≡ some uid) × (grants server cs ≡ some uid)

  abbrev pub LoginFailed : List RpcCall → ClientError → OdooXmlRpcClient → Type 0
  LoginFailed cs e c = (c.calls ≡ authentication ∷ cs) × (grants server cs ≡ none)

  -- One authentication is one call. It returns the uid that Odoo grants, which the client keeps, and raises
  -- when Odoo grants none.
  pub authenticate-calls :
      (c : OdooXmlRpcClient)
      → Ends (LoggedIn c.calls) (LoginFailed c.calls) (authenticate server texts c)
  unfolding authenticate close invalidate_session
  authenticate-calls c = by_answer (server.answer c.calls authentication) refl
    where
      by_uid :
          (o : Option ℤ)
          → grants server c.calls ≡ o
          → Ends
              (LoggedIn c.calls)
              (LoginFailed c.calls)
              (granted server texts o (log_call authentication (record c { common = true })))
      by_uid none h = (refl, h)
      by_uid (some uid) h = (refl, refl, h)

      by_answer :
          (r : Reply)
          → server.answer c.calls authentication ≡ r
          → Ends
              (LoggedIn c.calls)
              (LoginFailed c.calls)
              (authenticated server texts r (log_call authentication (record c { common = true })))
      by_answer (returned value) h = by_uid (granted_uid value) (ap granted_by h)
      by_answer (failed (fault code string)) h = (refl, ap granted_by h)
      by_answer (failed (protocol_error code message)) h = (refl, ap granted_by h)
      by_answer (failed (transport_error text)) h = (refl, ap granted_by h)
      by_answer (failed (other_error text)) h = (refl, ap granted_by h)

  pub authenticate-at :
      (c : OdooXmlRpcClient) (cs : List RpcCall)
      → c.calls ≡ cs
      → Ends (LoggedIn cs) (LoginFailed cs) (authenticate server texts c)
  authenticate-at c cs h =
      subst (λ xs. Ends (LoggedIn xs) (LoginFailed xs) (authenticate server texts c)) h
        (authenticate-calls c)

  -- a fault that names the authentication
  abbrev pub is_expired : Reply → Bool
  is_expired (returned value) = false
  is_expired (failed (fault code string)) = is_authentication_fault texts code string
  is_expired (failed e) = false

  -- Odoo's answer to the payload with a uid after some calls
  abbrev pub answer_to : Fields → List RpcCall → ℤ → Reply
  answer_to payload cs uid = server.answer cs (execute_kw (some uid) payload)

  module _ (payload : Fields) (held : Option ℤ) (before : List RpcCall) where
    -- The calls up to the first time that the payload is sent, and the uid that it is sent with: that of the
    -- session that the client holds, or without a session the one that Odoo grants.
    pub data Opened : ℤ → List RpcCall → Type 0 where
      at_once : {uid : ℤ} → held ≡ some uid → has_session held ≡ true → Opened uid before
      after_login :
          {uid : ℤ}
          → has_session held ≡ false
          → grants server before ≡ some uid
          → Opened uid (authentication ∷ before)

    -- The calls up to the end of a submission. The payload is not sent when there is no session and Odoo
    -- grants none; it is sent once when Odoo does not answer with a fault that names the authentication; and
    -- after such a fault and another authentication it is sent again, with the uid that this one grants.
    pub data Submission : List RpcCall → Type 0 where
      unsent :
          has_session held ≡ false
          → grants server before ≡ none
          → Submission (authentication ∷ before)
      sent :
          {cs : List RpcCall} (uid : ℤ)
          → Opened uid cs
          → is_expired (answer_to payload cs uid) ≡ false
          → Submission (execute_kw (some uid) payload ∷ cs)
      logged_in_again :
          {cs : List RpcCall} (uid : ℤ)
          → Opened uid cs
          → is_expired (answer_to payload cs uid) ≡ true
          → grants server (execute_kw (some uid) payload ∷ cs) ≡ none
          → Submission (authentication ∷ execute_kw (some uid) payload ∷ cs)
      sent_again :
          {cs : List RpcCall} (uid uid' : ℤ)
          → Opened uid cs
          → is_expired (answer_to payload cs uid) ≡ true
          → grants server (execute_kw (some uid) payload ∷ cs) ≡ some uid'
          → Submission
              (execute_kw (some uid') payload ∷ authentication ∷ execute_kw (some uid) payload ∷ cs)
