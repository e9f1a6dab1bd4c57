-- ===== src/Odoo/Client.antt =====
-- `OdooXmlRpcClient` of app/odoo_client.py: its state, `authenticate`, `close`, `invalidate_session`
-- and `check_readiness`. What Odoo answers to a call, the clock, `str` of an exception and `str.lower`
-- are parameters; the answers and the clock may depend on the calls before.
use Prim.Native.Char.{Char}
use Prim.Native.String.{[], ◌∷◌, ◌++◌}
use blackbear_edge_bridge.Prelude.{
  ℕ, String, ◌+◌, ◌*◌, Bool, true, false, not, Option, none, some, List, ℤ, pos, is_nonpos,
  pos_part, leb, ◌==◌, if◌then◌else◌,
}
use blackbear_edge_bridge.Time.{micros}
use blackbear_edge_bridge.Json.{Json, bool, int, obj, Fields}

pub record OdooClientSettings : Type 0 where
  pub url : String
  pub database : String
  pub username : String
  pub password : String
  pub model : String
  pub submit_method : String
  pub timeout : ℤ

-- The calls that Odoo receives; `execute_kw` with the uid and the payload that the client passes.
pub data RpcCall : Type 0 where
  authentication : RpcCall
  version : RpcCall
  execute_kw : Option ℤ → Fields → RpcCall

-- What a call may raise: `xmlrpc.client.Fault` with its code, as text, and its string; `ProtocolError`
-- with its code and message, as text; another exception of `_ODOO_TRANSPORT_ERRORS`; any other.
pub data RpcError : Type 0 where
  fault : String → String → RpcError
  protocol_error : String → String → RpcError
  transport_error : String → RpcError
  other_error : String → RpcError

pub data Reply : Type 0 where
  returned : Json → Reply
  failed : RpcError → Reply

-- What Odoo answers to a call after the calls of a list, latest first, and the time after them.
pub record Server : Type 0 where
  pub answer : List RpcCall → RpcCall → Reply
  pub now : List RpcCall → ℕ

-- `str` of an exception and the name of its type, and `str.lower`
pub record Texts : Type 0 where
  pub shown : RpcError → String
  pub type_name : RpcError → String
  pub lower : String → String

-- The exceptions that a method raises: its own two, or one that a call raised.
pub data ClientError : Type 0 where
  authentication_error : String → ClientError
  submission_error : String → ClientError
  uncaught : RpcError → ClientError

pub data Outcome {ℓ} (A : Type ℓ) : Type ℓ where
  returns : A → Outcome A
  raises : ClientError → Outcome A

-- `common` and `models` say whether the proxies are cached. `calls` are the calls made so far, latest
-- first: they are Odoo's view, and the code keeps no such list.
pub record OdooXmlRpcClient : Type 0 where
  pub settings : OdooClientSettings
  pub uid : Option ℤ
  pub last_authenticated_at : Option ℕ
  pub common : Bool
  pub models : Bool
  pub calls : List RpcCall

-- a method: what it returns or raises, and the client after it
abbrev pub Method {ℓ} : Type ℓ → Type ℓ
Method A = OdooXmlRpcClient → Outcome A × OdooXmlRpcClient

-- one statement after another
abbrev pub and_then {ℓ κ} :
    {A : Type ℓ} {B : Type κ}
    → Outcome A × OdooXmlRpcClient
    → (A → Method B)
    → Outcome B × OdooXmlRpcClient
and_then (returns a, c) rest = rest a c
and_then (raises e, c) rest = (raises e, c)

-- url.rstrip("/")
abbrev is_slash : Char → Bool
is_slash c = (c ∷ []) == "/"

abbrev keep_unless_slash : Char → String → String
keep_unless_slash c [] = if is_slash c then [] else c ∷ []
keep_unless_slash c (d ∷ s) = c ∷ d ∷ s

unfoldable pub rstrip_slashes : String → String
rstrip_slashes [] = []
rstrip_slashes (c ∷ s) = keep_unless_slash c (rstrip_slashes s)

-- `from_settings`, which calls `__init__`
unfoldable pub from_settings : OdooClientSettings → OdooXmlRpcClient
from_settings settings = record {
  settings = record settings { url = rstrip_slashes settings.url };
  uid = none;
  last_authenticated_at = none;
  common = false;
  models = false;
  calls = List.[];
}

-- `is_authenticated`
abbrev pub has_session : Option ℤ → Bool
has_session none = false
has_session (some uid) = not (is_nonpos uid)

unfoldable pub is_authenticated : OdooXmlRpcClient → Bool
is_authenticated c = has_session c.uid

unfoldable pub invalidate_session : OdooXmlRpcClient → OdooXmlRpcClient
invalidate_session c = record c { uid = none; last_authenticated_at = none }

unfoldable pub close : OdooXmlRpcClient → OdooXmlRpcClient
unfolding invalidate_session
close c = invalidate_session (record c { common = false; models = false })

-- isinstance(uid, int) and uid > 0; a bool is an int
abbrev pub granted_uid : Json → Option ℤ
granted_uid (int n) = if is_nonpos n then none else some n
granted_uid (bool true) = some (pos 1)
granted_uid _ = none

-- whether an exception is one of `_ODOO_TRANSPORT_ERRORS`
abbrev pub is_transport_error : RpcError → Bool
is_transport_error (fault code text) = false
is_transport_error (protocol_error code text) = true
is_transport_error (transport_error text) = true
is_transport_error (other_error text) = false

abbrev pub log_call : RpcCall → OdooXmlRpcClient → OdooXmlRpcClient
log_call call c = record c { calls = List.◌∷◌ call c.calls }

-- `not self.is_authenticated() or self._last_authenticated_at is None`, then the age of the session;
-- the seconds are None, or an integer
abbrev pub older_than : Option ℤ → ℕ → ℕ → Bool
older_than none at now = false
older_than (some seconds) at now =
    if is_nonpos seconds then false else leb (at + pos_part seconds * micros) now

abbrev pub revalidation_due : Option ℤ → Bool → Option ℕ → ℕ → Bool
revalidation_due seconds session none now = true
revalidation_due seconds session (some at) now =
    if not session then true else older_than seconds at now

module _ (server : Server) (texts : Texts) where
  abbrev pub granted : Option ℤ → Method ℤ
  granted none c =
      (raises (authentication_error "Odoo authentication failed: invalid UID"), close c)
  granted (some uid) c =
      (returns uid, record c { uid = some uid; last_authenticated_at = some (server.now c.calls) })

  abbrev pub authenticated : Reply → Method ℤ
  authenticated (returned value) c = granted (granted_uid value) c
  authenticated (failed e) c =
      if is_transport_error e
      then (
        raises (authentication_error ("Odoo authentication failed: " ++ texts.shown e)),
        close c,
      )
      else (raises (uncaught e), c)

  unfoldable pub authenticate : Method ℤ
  unfolding close
  authenticate c =
      authenticated (server.answer c.calls authentication)
        (log_call authentication (record c { common = true }))

  -- `_authentication_revalidation_due`
  unfoldable pub authentication_revalidation_due : Option ℤ → OdooXmlRpcClient → Bool
  unfolding is_authenticated
  authentication_revalidation_due seconds c =
      revalidation_due seconds (is_authenticated c) c.last_authenticated_at (server.now c.calls)

  -- what the handlers of `check_readiness` make of an exception that `version` raised
  abbrev pub checked : Option ℤ → Reply → Method Bool
  checked seconds (returned (obj fields)) c =
      if authentication_revalidation_due seconds c
      then and_then (authenticate c) (λ _ c'. (returns true, c'))
      else (returns true, c)
  checked seconds (returned value) c = (returns false, c)
  checked seconds (failed e) c =
      if is_transport_error e
      then (
        raises (authentication_error ("Odoo readiness check failed: " ++ texts.shown e)),
        close c,
      )
      else (raises (uncaught e), c)

  unfoldable pub check_readiness : Option ℤ → Method Bool
  unfolding close authenticate authentication_revalidation_due
  check_readiness seconds c =
      checked seconds (server.answer c.calls version)
        (log_call version (record c { common = true }))
