-- ===== src/Api/Publishing.antt =====
-- What a call publishes, and calls that raise.
use blackbear_edge_bridge.Prelude.{
  ℕ, ◌≡◌, ◌∙◌, ◌⊎◌, refl, String, Bool, true, false, not, ◌&&◌, ◌||◌, Option, none, some, [], ◌∷◌,
  ◌++◌, arith, ◌==◌, Bool-cases, inl, inr, select_one,
}
use blackbear_edge_bridge.Errors.{
  Error, Result, ok, raise, integrity_error, Checked, accept, reject,
}
use blackbear_edge_bridge.Json.{Json}
use blackbear_edge_bridge.Command.Validate.{CommandError, Command, validate_plc_command}
use blackbear_edge_bridge.Api.Commands.{
  ApiCommandRecord, ApiCommands, ApiRequest, has_request, has_key, is_taken, some_row, key_taken,
  create_api_command_record, get_api_command_by_idempotency_key, mark_api_command_rejected,
  mark_api_command_published,
}
use blackbear_edge_bridge.Api.Call.{
  PublishResult, JsonResponse, ApiContext, ApiCall, ApiState, after, message_of, failure_body,
}
use blackbear_edge_bridge.Api.Handler.{
  record_within_ttl, get_duplicate_response, stored_json_response, reject_request, fail_command,
  publish_command, refreshes, run_command, created, unless_duplicate, validated, loaded,
  plc_command, again, published_body, response_of_row,
}
use blackbear_edge_bridge.Api.Idempotent.{IsCommandCall, to_duplicates}

after_keeps {ℓ κ} :
    {A : Type ℓ} {B : Type κ} (s : ApiState) (r : Result A × ApiCommands)
    (rest : ApiState → Result B × ApiState)
    → ((t : ApiState) → (rest t).1.published ≡ t.published)
    → (after s r rest).1.published ≡ s.published
after_keeps s (ok a, t) rest h = h (record s { commands = t })
after_keeps s (raise e, t) rest h = refl

module _ (x : ApiContext) where
  stored_keeps :
      (i : String) (code : ℕ) (body : Json) (s : ApiState)
      → (stored_json_response x i code body s).1.published ≡ s.published
  unfolding stored_json_response
  stored_keeps i code body s = after_keeps s _ _ (λ t. refl)

  fail_keeps :
      (c : ApiCall) (p : PublishResult) (s : ApiState)
      → (fail_command x c p s).1.published ≡ s.published
  unfolding fail_command
  fail_keeps c p s = after_keeps s _ _ (λ t. stored_keeps _ _ _ t)

  reject_keeps :
      (c : ApiCall) (payload error : String) (code : ℕ) (s : ApiState)
      → (reject_request x c payload error code s).1.published ≡ s.published
  unfolding reject_request
  reject_keeps c payload error code s =
      let i = c.request.request_id in
      let answer = stored_json_response x i code (failure_body "rejected" i error) in
      let answer_keeps = stored_keeps i code (failure_body "rejected" i error) in
      after_keeps s (create_api_command_record x.sha256 c.request payload x.topic c.now s.commands)
        (λ t. after t (mark_api_command_rejected i error t.commands) answer)
        (λ t. after_keeps t (mark_api_command_rejected i error t.commands) answer answer_keeps)

  abbrev sent : ApiState → Command → ApiState
  sent s command = record s { published = s.published ++ command ∷ [] }

  publish_appends :
      (c : ApiCall) (command : Command) (s : ApiState)
      → (publish_command x c command s).1.published ≡ s.published ++ command ∷ []
  unfolding publish_command
  publish_appends c command s = elim (Bool-cases c.command_publish.success) [
    | inl t ↦ simp t (
        after_keeps (sent s command)
          (mark_api_command_published c.request.request_id c.command_publish.rc
            c.command_publish.mid c.now s.commands)
          (stored_json_response x c.request.request_id 200 (published_body x c command))
          (stored_keeps c.request.request_id 200 (published_body x c command)))
    | inr f ↦ simp f (fail_keeps c c.command_publish (sent s command))
  ]

  -- what a call may publish
  abbrev pub Publishes : ApiCall → ApiState → ApiState → Type 0
  Publishes c s s' =
      (s'.published ≡ s.published)
      ⊎ ((command : Command) × IsCommandCall x c command
          × ((refreshes x c command && not c.readiness_publish.success) ≡ false)
          × (s'.published ≡ s.published ++ command ∷ []))

  run-Publishes :
      (c : ApiCall) (command : Command) (s : ApiState)
      → IsCommandCall x c command
      → Publishes c s (run_command x c command s).1
  unfolding run_command
  run-Publishes c command s v =
      elim (Bool-cases (refreshes x c command && not c.readiness_publish.success)) [
        | inl t ↦ rw t (inl (fail_keeps c c.readiness_publish s))
        | inr f ↦ rw f (inr (command, v, f, publish_appends c command s))
      ]

  again_keeps :
      (e : Error) (o : Option (Result JsonResponse)) (s : ApiState)
      → (again x e o s).1.published ≡ s.published
  again_keeps e none s = refl
  again_keeps e (some r) s = refl

  created-Publishes :
      (c : ApiCall) (command : Command) (s : ApiState) (r : Result ApiCommandRecord × ApiCommands)
      → IsCommandCall x c command
      → Publishes c s (created x c command s r).1
  created-Publishes c command s (ok row, t) v =
      run-Publishes c command (record s { commands = t }) v
  created-Publishes c command s (raise e, t) v = inl (
      again_keeps e (get_duplicate_response x c.request.idempotency_key c.now t)
        (record s { commands = t }))

  unless-Publishes :
      (c : ApiCall) (command : Command) (o : Option (Result JsonResponse)) (s : ApiState)
      → IsCommandCall x c command
      → Publishes c s (unless_duplicate x c command o s).1
  unless-Publishes c command (some r) s v = inl refl
  unless-Publishes c command none s v = created-Publishes c command s _ v

  validated-Publishes :
      (c : ApiCall) (value : Json) (o : Checked CommandError Command) (s : ApiState)
      → c.too_large ≡ false
      → x.loads c.body ≡ accept value
      → validate_plc_command value ≡ o
      → Publishes c s (validated x c o s).1
  validated-Publishes c value (reject e) s small j h =
      inl (reject_keeps c c.body (message_of e) 422 s)
  validated-Publishes c value (accept command) s small j h =
      unless-Publishes c command _ s
        (record { small = small; value = value; is_json = j; is_valid = h })

  loaded-Publishes :
      (c : ApiCall) (o : Checked String Json) (s : ApiState)
      → c.too_large ≡ false
      → x.loads c.body ≡ o
      → Publishes c s (loaded x c o s).1
  loaded-Publishes c (reject e) s small h = inl (reject_keeps c c.body _ 422 s)
  loaded-Publishes c (accept value) s small h =
      validated-Publishes c value (validate_plc_command value) s small h refl

  -- A call hands at most one command to the publisher, and only the one that its body validates as, when no
  -- refresh of the readiness is due or the refresh was published.
  pub call-Publishes : (c : ApiCall) (s : ApiState) → Publishes c s (plc_command x c s).1
  unfolding plc_command
  call-Publishes c s = elim (Bool-cases c.too_large) [
    | inl t ↦ simp t (inl (reject_keeps c _ _ 413 s))
    | inr f ↦ simp f (loaded-Publishes c (x.loads c.body) s f refl)
  ]

  taken :
      (q : ApiRequest) (k : String) (r : ApiCommandRecord) (t : ApiCommands)
      → q.idempotency_key ≡ some k
      → select_one (has_key k) t.rows ≡ some r
      → is_taken q t.rows ≡ true
  unfolding is_taken
  taken q k r t e h =
      rw (e, key_taken) (rw h (either (some_row (select_one (has_request q.request_id) t.rows))))
    where
      either : (b : Bool) → (b || true) ≡ true
      either b = ground arith

  expired :
      (k : String) (r : ApiCommandRecord) (now : ℕ) (t : ApiCommands)
      → select_one (has_key k) t.rows ≡ some r
      → record_within_ttl x r now ≡ false
      → get_duplicate_response x (some k) now t ≡ none
  unfolding get_duplicate_response get_api_command_by_idempotency_key
  expired k r now t h old = elim (Bool-cases (k == "")) [
    | inl n ↦ rw n refl
    | inr n ↦ rw n (rw (h, response_of_row) (rw old refl))
  ]

  -- A call whose body is too large raises an IntegrityError, in place of the rejection, and changes
  -- nothing, when its key is in the table.
  pub taken_key_raises :
      (c : ApiCall) (k : String) (r : ApiCommandRecord) (s : ApiState)
      → c.request.idempotency_key ≡ some k
      → select_one (has_key k) s.commands.rows ≡ some r
      → c.too_large ≡ true
      → plc_command x c s ≡ (raise integrity_error, s)
  unfolding plc_command reject_request create_api_command_record
  taken_key_raises c k r s e h t =
      let is_taken_key = taken c.request k r s.commands e h in rw t (rw (is_taken_key, after) refl)

  -- A call with a valid command raises an IntegrityError and changes nothing, when the record of its key is
  -- past its time to live.
  pub expired_key_raises :
      (c : ApiCall) (k : String) (r : ApiCommandRecord) (command : Command) (s : ApiState)
      → c.request.idempotency_key ≡ some k
      → select_one (has_key k) s.commands.rows ≡ some r
      → IsCommandCall x c command
      → record_within_ttl x r c.now ≡ false
      → plc_command x c s ≡ (raise integrity_error, s)
  unfolding create_api_command_record
  expired_key_raises c k r command s e h v old =
      let is_taken_key = taken c.request k r s.commands e h in
      let none_found : get_duplicate_response x c.request.idempotency_key c.now s.commands ≡ none =
        rw e (expired k r c.now s.commands h old) in
      to_duplicates x c command s v
      ∙ rw (none_found, unless_duplicate) (rw (is_taken_key, created) (rw (none_found, again) refl))
