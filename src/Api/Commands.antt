-- ===== src/Api/Commands.antt =====
-- The table `api_commands` of app/database.py: the list of its rows by id, and the next id.
-- Each operation is one transaction; SHA-256 of the payload is a parameter.
use blackbear_edge_bridge.Prelude.{
  ℕ, suc, String, Bool, true, false, ◌||◌, Option, none, some, List, [], ◌∷◌, ◌++◌, ℤ, nat_eq, ◌==◌,
  select_one, count, update, if◌then◌else◌,
}
use blackbear_edge_bridge.Errors.{
  Result, ok, raise, integrity_error, request_not_found, transaction,
}
use blackbear_edge_bridge.Time.{format_timestamp}

-- API_COMMAND_STATUSES
pub data ApiCommandStatus : Type 0 where
  received published failed rejected duplicate : ApiCommandStatus

pub record ApiCommandRecord : Type 0 where
  pub id : ℕ
  pub request_id : String
  pub idempotency_key : Option String
  pub received_at : ℕ
  pub username : Option String
  pub remote_address : Option String
  pub payload : String
  pub payload_hash : String
  pub mqtt_topic : String
  pub status : ApiCommandStatus
  pub mqtt_rc : Option ℤ
  pub mqtt_mid : Option ℤ
  pub published_at : Option ℕ
  pub response_code : Option ℕ
  pub response_body : Option String
  pub last_error : Option String

pub record ApiCommands : Type 0 where
  pub rows : List ApiCommandRecord
  pub next_id : ℕ

-- What `create_api_command_record` is given.
pub record ApiRequest : Type 0 where
  pub request_id : String
  pub idempotency_key : Option String
  pub username : Option String
  pub remote_address : Option String

-- WHERE request_id = ?
abbrev pub has_request : String → ApiCommandRecord → Bool
has_request i r = r.request_id == i

abbrev pub key_is : String → Option String → Bool
key_is k none = false
key_is k (some j) = j == k

-- WHERE idempotency_key = ?
abbrev pub has_key : String → ApiCommandRecord → Bool
has_key k r = key_is k r.idempotency_key

abbrev pub some_row : Option ApiCommandRecord → Bool
some_row none = false
some_row (some r) = true

abbrev pub key_taken : Option String → List ApiCommandRecord → Bool
key_taken none rows = false
key_taken (some k) rows = some_row (select_one (has_key k) rows)

-- a row that breaks UNIQUE (request_id) or UNIQUE (idempotency_key), where NULL equals nothing
unfoldable pub is_taken : ApiRequest → List ApiCommandRecord → Bool
is_taken q rows =
    some_row (select_one (has_request q.request_id) rows) || key_taken q.idempotency_key rows

module _ (sha256 : String → String) where
  abbrev pub new_command : ℕ → ApiRequest → String → String → ℕ → ApiCommandRecord
  new_command i q payload topic now = record {
    id = i;
    request_id = q.request_id;
    idempotency_key = q.idempotency_key;
    received_at = format_timestamp now;
    username = q.username;
    remote_address = q.remote_address;
    payload = payload;
    payload_hash = sha256 payload;
    mqtt_topic = topic;
    status = received;
    mqtt_rc = none;
    mqtt_mid = none;
    published_at = none;
    response_code = none;
    response_body = none;
    last_error = none;
  }

  -- with the default status RECEIVED
  unfoldable pub create_api_command_record :
      ApiRequest → String → String → ℕ → ApiCommands → Result ApiCommandRecord × ApiCommands
  create_api_command_record q payload topic now t =
      let row = new_command t.next_id q payload topic now in
      if is_taken q t.rows
      then (raise integrity_error, t)
      else (ok row, record { rows = t.rows ++ row ∷ []; next_id = suc t.next_id })

unfoldable pub get_api_command_by_idempotency_key : String → ApiCommands → Option ApiCommandRecord
get_api_command_by_idempotency_key k t = select_one (has_key k) t.rows

-- UPDATE … WHERE request_id = ?, then `if cursor.rowcount != 1: raise ValueError`
unfoldable pub update_command :
    String → (ApiCommandRecord → ApiCommandRecord) → ApiCommands → Result (Unit {0}) × ApiCommands
update_command i set = transaction (λ (t : ApiCommands).
    let after = record t { rows = update (has_request i) set t.rows } in
    if nat_eq (count (has_request i) t.rows) 1
    then (ok tt, after)
    else (raise (request_not_found i), after))

-- `_update_api_command_result` of one row
abbrev pub result_row :
    ApiCommandStatus
    → Option ℤ
    → Option ℤ
    → Option ℕ
    → Option String
    → ApiCommandRecord
    → ApiCommandRecord
result_row status rc mid published_at error r = record r {
  status = status;
  mqtt_rc = rc;
  mqtt_mid = mid;
  published_at = published_at;
  last_error = error;
}

abbrev pub mark_api_command_published :
    String → ℤ → Option ℤ → ℕ → ApiCommands → Result (Unit {0}) × ApiCommands
mark_api_command_published i rc mid now =
    update_command i (result_row published (some rc) mid (some (format_timestamp now)) none)

abbrev pub mark_api_command_failed :
    String → String → ℤ → Option ℤ → ApiCommands → Result (Unit {0}) × ApiCommands
mark_api_command_failed i error rc mid =
    update_command i (result_row failed (some rc) mid none (some error))

abbrev pub mark_api_command_rejected :
    String → String → ApiCommands → Result (Unit {0}) × ApiCommands
mark_api_command_rejected i error =
    update_command i (result_row rejected none none none (some error))

abbrev pub response_row : ℕ → String → ApiCommandRecord → ApiCommandRecord
response_row code body r = record r { response_code = some code; response_body = some body }

abbrev pub save_api_response : String → ℕ → String → ApiCommands → Result (Unit {0}) × ApiCommands
save_api_response i code body = update_command i (response_row code body)
