-- ===== src/Worker/Round.antt =====
-- `run_once`, the watchdog and `health_snapshot` of app/queue_worker.py.
use blackbear_edge_bridge.Prelude.{
  ℕ, suc, ◌+◌, ◌-◌, ◌*◌, ◌≤◌, ◌≡◌, ◌∙◌, refl, select_one-holds, String, Bool, true, false, not,
  ◌&&◌, ◌||◌, Option, none, some, List, [], ◌∷◌, ℤ, arith, if◌then◌else◌, ltb, updated,
}
use blackbear_edge_bridge.Errors.{Result, ok, raise, xmlrpc_error}
use blackbear_edge_bridge.Time.{micros, format_timestamp}
use blackbear_edge_bridge.Json.{Codec}
use blackbear_edge_bridge.Queue.Message.{new, MessageRecord, Messages, has_id, get_message_by_id}
use blackbear_edge_bridge.Queue.Claim.{claim_pending_messages}
use blackbear_edge_bridge.Queue.Mark.{reset_stale_processing, get_queue_counts, is_stale, recovered}
use blackbear_edge_bridge.Queue.Recovery.{reset_effect}
use blackbear_edge_bridge.Worker.Submission.{ChildRun}
use blackbear_edge_bridge.Worker.Process.{
  Bridge, WorkerSettings, Clock, heartbeat, set_pending_queue_count, process_record,
}

-- `_active_submission_process`, `_active_submission_record_id` and `_active_submission_started_at`,
-- which are set and cleared together
pub record ActiveSubmission : Type 0 where
  pub is_alive : Bool
  pub record_id : ℕ
  pub started_at : ℕ

-- `_active_record_ids_protected_from_watchdog`; the timeout is in seconds
unfoldable pub protected_ids : ℕ → ℕ → Option ActiveSubmission → List ℕ
protected_ids submission_timeout now none = []
protected_ids submission_timeout now (some a) =
    if not a.is_alive
    then []
    else if ltb (a.started_at + submission_timeout * micros) now
    then []
    else a.record_id ∷ []

-- `recover_stale_processing`, with its two reads of the clock
unfoldable pub recover_stale_processing :
    ℕ → ℕ → Option ActiveSubmission → ℕ → ℕ → Messages → ℕ × Messages
recover_stale_processing stale_timeout submission_timeout active now later q =
    reset_stale_processing (format_timestamp (now - stale_timeout * micros))
      (protected_ids submission_timeout now active) later q

-- The watchdog leaves a message as it is while the child that submits it is alive and within the
-- submission timeout, however old its last attempt is.
pub active_is_kept :
    (stale_timeout submission_timeout now later : ℕ) (a : ActiveSubmission) (q : Messages)
    → a.is_alive ≡ true
    → now ≤ a.started_at + submission_timeout * micros
    → get_message_by_id a.record_id
        (recover_stale_processing stale_timeout submission_timeout (some a) now later q).1
      ≡ get_message_by_id a.record_id q
unfolding recover_stale_processing protected_ids get_message_by_id
active_is_kept stale_timeout submission_timeout now later a q alive within =
    let stale_before = format_timestamp (now - stale_timeout * micros) in
    let (p, f, s, row) = reset_effect stale_before (a.record_id ∷ []) later later q a.record_id in
    let in_time : ltb (a.started_at + submission_timeout * micros) now ≡ false =
      ground (arith, within) in
    rw alive (rw in_time (row ∙ spared (get_message_by_id a.record_id q) refl))
  where
    spared :
        (o : Option MessageRecord)
        → get_message_by_id a.record_id q ≡ o
        → updated
            (is_stale (format_timestamp (now - stale_timeout * micros)) (a.record_id ∷ []))
            (recovered (format_timestamp later))
            o
          ≡ o
    spared none e = refl
    spared (some r) e = ground (arith, select_one-holds (has_id a.record_id) q.rows r e)

-- how `authenticate` ends: it returns, raises OdooAuthenticationError, or raises another exception
pub data Login : Type 0 where
  logged_in : Login
  login_refused : Login
  login_raises : String → Login

abbrev pub logs_in : Login → Bool
logs_in logged_in = true
logs_in login_refused = false
logs_in (login_raises text) = false

-- what one round of the worker meets: the session with Odoo, the stop event before each record, and
-- the clock
pub record Round : Type 0 where
  pub is_authenticated : Bool
  pub login : Login
  pub started : ℕ
  pub claimed_at : ℕ
  pub stopped : ℕ → Bool
  pub clock : ℕ → Clock

module _ (codec : Codec) (settings : WorkerSettings) (submit : String × String → ChildRun) where
  abbrev pub new_count : Bridge → ℕ
  new_count b = get_queue_counts b.database.messages new

  abbrev pub with_count : Bridge → Bridge
  with_count b = record b { state = set_pending_queue_count (new_count b) b.state }

  -- one more record attempted
  abbrev pub attempted_too : Result ℕ × Bridge → Result ℕ × Bridge
  attempted_too (ok n, b) = (ok (suc n), b)
  attempted_too (raise e, b) = (raise e, b)

  abbrev pub and_then :
      Result (Unit {0}) × Bridge → (Bridge → Result ℕ × Bridge) → Result ℕ × Bridge
  and_then (ok u, b) rest = attempted_too (rest b)
  and_then (raise e, b) rest = (raise e, b)

  -- the `for` loop: `break` when stopped, and an exception leaves it
  unfoldable pub process_records : Round → ℕ → List MessageRecord → Bridge → Result ℕ × Bridge
  process_records round k [] b = (ok 0, b)
  process_records round k (r ∷ rs) b =
      if round.stopped k
      then (ok 0, b)
      else and_then (process_record codec settings (round.clock k) submit r b)
          (process_records round (suc k) rs)

  abbrev pub claim_and_process : ℤ → Round → Bridge → Result ℕ × Bridge
  claim_and_process batch_size round b =
      let (records, q) =
        claim_pending_messages batch_size settings.max_retries round.claimed_at
          b.database.messages in
      process_records round 0 records
        (with_count (record b { database = record b.database { messages = q } }))

  -- `if not self._odoo_client.is_authenticated()` and what follows it
  abbrev pub with_session : Bool → Login → (Bridge → Result ℕ × Bridge) → Bridge → Result ℕ × Bridge
  with_session true login rest b = rest b
  with_session false logged_in rest b = rest b
  with_session false login_refused rest b = (ok 0, b)
  with_session false (login_raises text) rest b = (raise (xmlrpc_error text), b)

  pub with_session-rest :
      (session : Bool) (login : Login) (rest : Bridge → Result ℕ × Bridge) (b : Bridge)
      → (session || logs_in login) ≡ true
      → with_session session login rest b ≡ rest b
  with_session-rest true login rest b h = refl
  with_session-rest false logged_in rest b h = refl
  with_session-rest false login_refused rest b h = absurd (ground (arith, h))
  with_session-rest false (login_raises text) rest b h = absurd (ground (arith, h))

  -- the number of records attempted
  unfoldable pub run_once : ℤ → Round → Bridge → Result ℕ × Bridge
  run_once batch_size round b =
      let begun = with_count (record b { state = heartbeat round.started b.state }) in
      with_session round.is_authenticated round.login (claim_and_process batch_size round) begun

-- `worker_healthy` of `health_snapshot`, of the age of the last heartbeat and the time on the current
-- record, in microseconds; the settings are in seconds
unfoldable pub worker_healthy : ℕ → ℕ → Bool → Option ℕ → Option ℕ → Bool
worker_healthy threshold submission_timeout alive heartbeat_age current =
    alive
    && (elim heartbeat_age [ none ↦ false | some age ↦ not (ltb (threshold * micros) age) ])
    && (elim current [ none ↦ true | some t ↦ not (ltb (submission_timeout * micros) t) ])
