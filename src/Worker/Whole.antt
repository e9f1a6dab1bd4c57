-- ===== src/Worker/Whole.antt =====
-- A whole round of the worker, `run_once` of app/queue_worker.py: the claim and the pass over what it
-- returned.
use mathlib.Core.Path.{subst}
use blackbear_edge_bridge.Prelude.{
  ℕ, suc, ◌≡◌, ◌≢◌, ◌∙◌, refl, sym, ap, String, false, true, ◌||◌, none, List, [], ◌∷◌, ℤ, pos_part,
  All, length, select, take,
}
use blackbear_edge_bridge.Errors.{ok}
use blackbear_edge_bridge.Json.{Json, Codec}
use blackbear_edge_bridge.Queue.Message.{MessageRecord, Messages}
use blackbear_edge_bridge.Queue.Claim.{ids, is_claimable, claim_pending_messages}
use blackbear_edge_bridge.Queue.WellFormed.{IsValid, claim-IsValid}
use blackbear_edge_bridge.Queue.ClaimOrder.{claimed_ids}
use blackbear_edge_bridge.Worker.Submission.{ChildRun}
use blackbear_edge_bridge.Worker.Process.{WorkerSettings, Bridge, heartbeat}
use blackbear_edge_bridge.Worker.Claimed.{claimed-AllApart, claimed-IsStored}
use blackbear_edge_bridge.Worker.Round.{
  Round, logs_in, process_records, run_once, with_count, claim_and_process, with_session-rest,
}
use blackbear_edge_bridge.Worker.Pass.{IsSettled, pass_settles}

-- the ids that a claim takes, oldest first
abbrev pub claimed_first : ℤ → ℤ → Messages → List ℕ
claimed_first batch_size max_retries q =
    take (pos_part batch_size) (ids (select (is_claimable max_retries) q.rows))

All-ids : (P : ℕ → Type 0) (rs : List MessageRecord) → All (λ r. P r.id) rs → All P (ids rs)
All-ids P [] a = tt
All-ids P (r ∷ rs) a = (a.0, All-ids P rs a.1)

length-ids : (rs : List MessageRecord) → length (ids rs) ≡ length rs
length-ids [] = refl
length-ids (r ∷ rs) = ap suc (length-ids rs)

-- A round that has a session with Odoo, or logs in, and is not stopped, on a well-formed table, when every response
-- serializes: it returns, it has attempted exactly the first `batch_size` claimable messages, and each of
-- these is COMPLETED or FAILED after it. None is left PROCESSING.
pub round_settles :
    (codec : Codec) (settings : WorkerSettings) (submit : String × String → ChildRun)
    (batch_size : ℤ) (round : Round) (b : Bridge)
    → ((k : ℕ) → round.stopped k ≡ false)
    → ((response : Json) → codec.dumps response ≢ none)
    → (round.is_authenticated || logs_in round.login) ≡ true
    → IsValid b.database.messages
    → let (result, after) = run_once codec settings submit batch_size round b in
      let claimed = claimed_first batch_size settings.max_retries b.database.messages in
      (result ≡ ok (length claimed)) × All (IsSettled after.database.messages) claimed
unfolding run_once
round_settles codec settings submit batch_size round b goes_on serializes session v =
    let q = b.database.messages in
    let (records, q') = claim_pending_messages batch_size settings.max_retries round.claimed_at q in
    let begun =
      with_count codec settings submit (record b { state = heartbeat round.started b.state }) in
    let b' =
      with_count codec settings submit
        (record begun { database = record b.database { messages = q' } }) in
    let (result, settled) =
      pass_settles codec settings submit round goes_on serializes 0 records b'
        (claim-IsValid batch_size settings.max_retries round.claimed_at q v)
        (claimed-AllApart batch_size settings.max_retries round.claimed_at q v)
        (claimed-IsStored batch_size settings.max_retries round.claimed_at q v) in
    let same = claimed_ids batch_size settings.max_retries round.claimed_at q v in
    rw
      (with_session-rest codec settings submit round.is_authenticated round.login
        (claim_and_process codec settings submit batch_size round) begun session)
      (subst
        (λ is.
          ((process_records codec settings submit round 0 records b').0 ≡ ok (length is))
          × All
              (IsSettled
                (process_records codec settings submit round 0 records b').1.database.messages)
              is)
        same (result ∙ ap ok (sym (length-ids records)), All-ids _ records settled))
