-- ===== src/Api/Answered.antt =====
-- A call that creates a record answers, and its response stands in the row of its key.
use blackbear_edge_bridge.Prelude.{
  ℕ, ◌≡◌, refl, String, Bool, true, not, ◌&&◌, none, some, List, [], ◌∷◌, ◌++◌, arith, nat_eq,
  Bool-cases, inl, inr, select_one, select_one-update, update, count,
}
use blackbear_edge_bridge.Errors.{Result, ok}
use blackbear_edge_bridge.Time.{format_timestamp}
use blackbear_edge_bridge.Json.{Json}
use blackbear_edge_bridge.Command.Validate.{Command}
use blackbear_edge_bridge.Api.Commands.{
  published, failed, ApiCommandRecord, ApiCommands, has_request, has_key, update_command,
  result_row, response_row,
}
use blackbear_edge_bridge.Api.Call.{
  PublishResult, JsonResponse, ApiContext, ApiCall, ApiState, after, failure_body,
  error_or_unavailable,
}
use blackbear_edge_bridge.Api.Handler.{
  stored_json_response, fail_command, published_body, publish_command, refreshes, run_command,
}

count-update :
    (p q : ApiCommandRecord → Bool) (f : ApiCommandRecord → ApiCommandRecord)
    → ((r : ApiCommandRecord) → q (f r) ≡ q r)
    → (rows : List ApiCommandRecord) → count q (update p f rows) ≡ count q rows
count-update p q f keep [] = refl
count-update p q f keep (r ∷ rows) = ground (arith, keep r, count-update p q f keep rows)

-- The row of a key is the one row of its request.
pub record Holds (k i : String) (r : ApiCommandRecord) (t : ApiCommands) : Type 0 where
  pub at_key : select_one (has_key k) t.rows ≡ some r
  pub of_request : has_request i r ≡ true
  pub one_request : nat_eq (count (has_request i) t.rows) 1 ≡ true

update-Holds :
    (k i : String) (r : ApiCommandRecord) (t : ApiCommands)
    (f : ApiCommandRecord → ApiCommandRecord)
    → ((x : ApiCommandRecord) → has_request i (f x) ≡ has_request i x)
    → ((x : ApiCommandRecord) → has_key k (f x) ≡ has_key k x)
    → Holds k i r t
    → let t' : ApiCommands = record t { rows = update (has_request i) f t.rows } in
      (update_command i f t ≡ (ok tt, t')) × Holds k i (f r) t'
unfolding update_command
update-Holds k i r t f keep_request keep_key h = (
  rw h.one_request refl,
  record {
    at_key =
        rw (select_one-update (has_key k) (has_request i) f keep_key t.rows)
          (rw h.at_key (rw h.of_request refl));
    of_request = rw (keep_request r) h.of_request;
    one_request =
        rw (count-update (has_request i) (has_request i) f keep_request t.rows) h.one_request;
  },
)

module _ (x : ApiContext) where
  -- the response stands in the row of the key, which was received at `at`
  abbrev pub Answered : String → ℕ → Result JsonResponse × ApiState → Type 0
  Answered k at (result, s) =
      (response : JsonResponse) × (result ≡ ok response)
      × (r : ApiCommandRecord) × (select_one (has_key k) s.commands.rows ≡ some r)
      × (r.response_code ≡ some response.status_code)
      × (r.response_body ≡ some (x.encode response.content))
      × (r.received_at ≡ at)

  stored-Answered :
      (k i : String) (r : ApiCommandRecord) (code : ℕ) (body : Json) (s : ApiState)
      → Holds k i r s.commands
      → Answered k r.received_at (stored_json_response x i code body s)
  unfolding stored_json_response
  stored-Answered k i r code body s h =
      let set = response_row code (x.encode body) in
      let (e, h') = update-Holds k i r s.commands set (λ y. refl) (λ y. refl) h in
      rw (e, after)
        (record { status_code = code; content = body }, refl, set r, h'.at_key, refl, refl, refl)

  fail-Answered :
      (k : String) (r : ApiCommandRecord) (c : ApiCall) (p : PublishResult) (s : ApiState)
      → Holds k c.request.request_id r s.commands
      → Answered k r.received_at (fail_command x c p s)
  unfolding fail_command
  fail-Answered k r c p s h =
      let i = c.request.request_id in
      let error = error_or_unavailable p.error in
      let set = result_row failed (some p.rc) p.mid none (some error) in
      let (e, h') = update-Holds k i r s.commands set (λ y. refl) (λ y. refl) h in
      rw (e, after)
        (stored-Answered k i (set r) 503 (failure_body "failed" i error)
          (record s {
            commands = record s.commands { rows = update (has_request i) set s.commands.rows };
          })
          h')

  publish-Answered :
      (k : String) (r : ApiCommandRecord) (c : ApiCall) (command : Command) (s : ApiState)
      → Holds k c.request.request_id r s.commands
      → Answered k r.received_at (publish_command x c command s)
  unfolding publish_command fail_command
  publish-Answered k r c command s h =
      let i = c.request.request_id in
      let p = c.command_publish in
      let sent : ApiState = record s { published = s.published ++ command ∷ [] } in
      let set = result_row published (some p.rc) p.mid (some (format_timestamp c.now)) none in
      let (e, h') = update-Holds k i r s.commands set (λ y. refl) (λ y. refl) h in
      elim (Bool-cases p.success) [
        | inl t ↦ rw t (
            rw (e, after)
              (stored-Answered k i (set r) 200 (published_body x c command)
                (record sent {
                  commands = record s.commands {
                    rows = update (has_request i) set s.commands.rows;
                  };
                })
                h'))
        | inr f ↦ rw f (fail-Answered k r c p sent h)
      ]

  pub run-Answered :
      (k : String) (r : ApiCommandRecord) (c : ApiCall) (command : Command) (s : ApiState)
      → Holds k c.request.request_id r s.commands
      → Answered k r.received_at (run_command x c command s)
  unfolding run_command
  run-Answered k r c command s h =
      elim (Bool-cases (refreshes x c command && not c.readiness_publish.success)) [
        | inl t ↦ rw t (fail-Answered k r c c.readiness_publish s h)
        | inr f ↦ rw f (publish-Answered k r c command s h)
      ]
