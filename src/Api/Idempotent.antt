-- ===== src/Api/Idempotent.antt =====
-- What an idempotency key promises: a second call with the key repeats the first response.
use blackbear_edge_bridge.Prelude.{
  ℕ, suc, ◌+◌, ◌*◌, ◌≤◌, ◌≡◌, refl, String, true, false, ◌||◌, Option, none, some, [], ◌∷◌, ◌++◌,
  arith, ◌==◌, eq_refl, is_nonpos, pos_part, leb, select_one, select_one-append_none, count-append,
  count_of_none,
}
use blackbear_edge_bridge.Errors.{ok, accept}
use blackbear_edge_bridge.Time.{micros, format_timestamp}
use blackbear_edge_bridge.Json.{Json}
use blackbear_edge_bridge.Command.Validate.{Command, validate_plc_command}
use blackbear_edge_bridge.Api.Commands.{
  ApiCommandRecord, ApiCommands, ApiRequest, has_request, has_key, is_taken, new_command, some_row,
  key_taken, create_api_command_record, get_api_command_by_idempotency_key,
}
use blackbear_edge_bridge.Api.Call.{JsonResponse, ApiContext, ApiCall, ApiState, command_json}
use blackbear_edge_bridge.Api.Handler.{
  record_within_ttl, stored_response, response_of_row, get_duplicate_response, created,
  unless_duplicate, validated, loaded, plc_command,
}
use blackbear_edge_bridge.Api.Answered.{Holds, Answered, run-Answered}

module _ (x : ApiContext) where
  -- a call whose body is a command
  pub record IsCommandCall (c : ApiCall) (command : Command) : Type 0 where
    pub small : c.too_large ≡ false
    pub value : Json
    pub is_json : x.loads c.body ≡ accept value
    pub is_valid : validate_plc_command value ≡ accept command

  pub to_duplicates :
      (c : ApiCall) (command : Command) (s : ApiState)
      → IsCommandCall c command
      → plc_command x c s
        ≡ unless_duplicate x c command
            (get_duplicate_response x c.request.idempotency_key c.now s.commands)
            s
  unfolding plc_command
  to_duplicates c command s v =
      rw v.small (rw (v.is_json, loaded) (rw (v.is_valid, validated) refl))

  both_none :
      (a b : Option ApiCommandRecord) → (some_row a || some_row b) ≡ false → (b ≡ none) × (a ≡ none)
  both_none none none h = (refl, refl)
  both_none none (some r) h = cc
  both_none (some r) b h = cc

  key_free :
      (q : ApiRequest) (k : String) (t : ApiCommands)
      → q.idempotency_key ≡ some k
      → is_taken q t.rows ≡ false
      → (select_one (has_key k) t.rows ≡ none)
        × (select_one (has_request q.request_id) t.rows ≡ none)
  unfolding is_taken
  key_free q k t e h =
      both_none (select_one (has_request q.request_id) t.rows) (select_one (has_key k) t.rows)
        (rw (e, key_taken) at h)

  created-Holds :
      (q : ApiRequest) (k payload : String) (now : ℕ) (t : ApiCommands)
      → q.idempotency_key ≡ some k
      → select_one (has_key k) t.rows ≡ none
      → select_one (has_request q.request_id) t.rows ≡ none
      → let row = new_command x.sha256 t.next_id q payload x.topic now in
        Holds k q.request_id row (record { rows = t.rows ++ row ∷ []; next_id = suc t.next_id })
  created-Holds q k payload now t e no_key no_request =
      let row = new_command x.sha256 t.next_id q payload x.topic now in
      let same_key : has_key k row ≡ true = rw e (eq_refl k) in
      record {
        at_key = rw (select_one-append_none (has_key k) t.rows row no_key) (rw same_key refl);
        of_request = eq_refl q.request_id;
        one_request = rw (count-append (has_request q.request_id) t.rows (row ∷ [])) (
            rw (count_of_none (has_request q.request_id) t.rows no_request)
              (rw (eq_refl q.request_id) refl));
      }

  no_duplicate :
      (k : String) (now : ℕ) (t : ApiCommands)
      → (k == "") ≡ false
      → select_one (has_key k) t.rows ≡ none
      → get_duplicate_response x (some k) now t ≡ none
  unfolding get_duplicate_response get_api_command_by_idempotency_key
  no_duplicate k now t n e = rw n (rw (e, response_of_row) refl)

  -- the first call of a key
  first-Answered :
      (k : String) (c : ApiCall) (command : Command) (s : ApiState)
      → (k == "") ≡ false
      → c.request.idempotency_key ≡ some k
      → is_taken c.request s.commands.rows ≡ false
      → IsCommandCall c command
      → Answered x k (format_timestamp c.now) (plc_command x c s)
  unfolding create_api_command_record
  first-Answered k c command s n e free v =
      let (no_key, no_request) = key_free c.request k s.commands e free in
      let payload = x.encode_payload (command_json command) in
      let row = new_command x.sha256 s.commands.next_id c.request payload x.topic c.now in
      let holds = created-Holds c.request k payload c.now s.commands e no_key no_request in
      let none_yet : get_duplicate_response x c.request.idempotency_key c.now s.commands ≡ none =
        rw e (no_duplicate k c.now s.commands n no_key) in
      rw (to_duplicates c command s v) (
        rw (none_yet, unless_duplicate)
          (rw (free, created)
            (run-Answered x k row c command
              (record s {
                commands = record {
                  rows = s.commands.rows ++ row ∷ [];
                  next_id = suc s.commands.next_id;
                };
              })
              holds)))

  -- A call with a fresh request and a fresh key is answered; and a second call with a valid command, the
  -- same key and within the time to live returns the same response and changes neither the table nor
  -- what is published, when the encoded body of the response loads as it was.
  pub same_key_repeats :
      (k : String) (c c' : ApiCall) (command command' : Command) (s : ApiState)
      → (k == "") ≡ false
      → c.request.idempotency_key ≡ some k
      → c'.request.idempotency_key ≡ some k
      → is_taken c.request s.commands.rows ≡ false
      → IsCommandCall c command
      → IsCommandCall c' command'
      → is_nonpos x.idempotency_ttl_seconds ≡ false
      → c'.now ≤ (format_timestamp c.now + pos_part x.idempotency_ttl_seconds) * micros
      → ((first : JsonResponse)
          → (plc_command x c s).0 ≡ ok first
          → x.loads (x.encode first.content) ≡ accept first.content)
      → (response : JsonResponse) × ((plc_command x c s).0 ≡ ok response)
        × (plc_command x c' (plc_command x c s).1 ≡ (ok response, (plc_command x c s).1))
  unfolding get_duplicate_response get_api_command_by_idempotency_key record_within_ttl
  same_key_repeats k c c' command command' s n e e' free v v' ttl within law =
      let (response, answer, r, at_key, code, body, at) = first-Answered k c command s n e free v in
      let s' = (plc_command x c s).1 in
      let fresh : leb c'.now ((r.received_at + pos_part x.idempotency_ttl_seconds) * micros)
          ≡ true =
        rw at (ground (arith, within)) in
      let repeated : get_duplicate_response x c'.request.idempotency_key c'.now s'.commands
          ≡ some (ok response) =
        rw e' (
          rw n (
            rw (at_key, response_of_row)
              (rw ttl (
                rw fresh (
                  rw (code, stored_response)
                    (rw (body, stored_response) (rw (law response answer) refl))))))) in
      (
        response,
        answer,
        rw (to_duplicates c' command' s' v') (rw (repeated, unless_duplicate) refl),
      )
