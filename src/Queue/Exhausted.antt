-- ===== src/Queue/Exhausted.antt =====
-- Messages that are FAILED with no retry left, through the operations of the queue.
use blackbear_edge_bridge.Prelude.{
  ℕ, ◌≡◌, refl, String, Bool, true, false, Option, some, List, [], ◌∷◌, ℤ, arith, All, below,
  select_one, select_one-append_some, select_one-update, select_one-holds, update, ◌∙◌, ap, updated,
  nat_eq, Bool-cases, Option-cases, inl, inr, if◌then◌else◌,
}
use blackbear_edge_bridge.Time.{format_timestamp}
use blackbear_edge_bridge.Queue.Message.{is_failed, MessageRecord, Messages, has_id, has_hash}
use blackbear_edge_bridge.Queue.Save.{
  generate_message_hash, Incoming, save_message, save_fresh, save_duplicate,
}
use blackbear_edge_bridge.Queue.Claim.{is_claimable, claimed, claim_pending_messages}
use blackbear_edge_bridge.Queue.ClaimOrder.{claim-eq-one_pass}
use blackbear_edge_bridge.Queue.Lookup.{update_one_rows, change_first_keeps}
use blackbear_edge_bridge.Queue.Mark.{
  complete_message, completed_row, mark_failed, failed_row, reset_stale_processing, is_stale,
  recovered,
}
use blackbear_edge_bridge.Queue.Replay.{
  record_ack_replay_attempt, replay_row, write_replay, decide_replay, replayed_row,
  AckReplayAttempt,
}
use blackbear_edge_bridge.Queue.WellFormed.{IsValid}
use blackbear_edge_bridge.Queue.Operations.{
  Operation, save, claim, fail, complete, recover, replay, apply, run, apply-IsValid,
}

-- FAILED with no retry left
pub record IsExhausted (max_retries : ℤ) (r : MessageRecord) : Type 0 where
  pub is_failed_row : is_failed r.status ≡ true
  pub spent : below r.retry_count max_retries ≡ false

abbrev pub ExhaustedAt : ℤ → ℕ → Messages → Type 0
ExhaustedAt max_retries i q =
    (r : MessageRecord) × (select_one (has_id i) q.rows ≡ some r) × IsExhausted max_retries r

-- The operation does not complete message i.
abbrev pub Spares : ℕ → Operation → Type 0
Spares i (complete j c) = nat_eq j i ≡ false
Spares i _ = Unit

pub final_failure-IsExhausted :
    (error : String) (at : ℕ) (response : Option String) (max_retries : ℤ) (r : MessageRecord)
    → IsExhausted max_retries (failed_row error at response false (some max_retries) r)
final_failure-IsExhausted error at response max_retries r = ground arith

failure-IsExhausted :
    (error : String) (at : ℕ) (response : Option String) (retryable : Bool) (max_retries : ℤ)
    (r : MessageRecord)
    → IsExhausted max_retries r
    → IsExhausted max_retries (failed_row error at response retryable (some max_retries) r)
failure-IsExhausted error at response retryable max_retries r h = ground arith

pub IsExhausted-not_claimable :
    (max_retries : ℤ) (r : MessageRecord)
    → IsExhausted max_retries r
    → is_claimable max_retries r ≡ false
IsExhausted-not_claimable max_retries r x = ground (arith, x.is_failed_row, x.spent)

IsExhausted-if :
    (max_retries : ℤ) (b : Bool) (f : MessageRecord → MessageRecord) (r : MessageRecord)
    → (b ≡ true → IsExhausted max_retries (f r))
    → IsExhausted max_retries r
    → IsExhausted max_retries (if b then f r else r)
IsExhausted-if max_retries true f r h x = h refl
IsExhausted-if max_retries false f r h x = x

module _ (max_retries : ℤ) (i : ℕ) where
  updated_at :
      (p : MessageRecord → Bool) (f : MessageRecord → MessageRecord)
      (rows after : List MessageRecord) (r : MessageRecord)
      → select_one (has_id i) after ≡ updated p f (select_one (has_id i) rows)
      → select_one (has_id i) rows ≡ some r
      → (p r ≡ true → IsExhausted max_retries (f r))
      → IsExhausted max_retries r
      → (r' : MessageRecord) × (select_one (has_id i) after ≡ some r') × IsExhausted max_retries r'
  updated_at p f rows after r look e h x =
      (if p r then f r else r, look ∙ ap (updated p f) e, IsExhausted-if max_retries (p r) f r h x)

  write_replay_keeps :
      (h : String) (now : ℕ) (a : AckReplayAttempt) (q : Messages) (r : MessageRecord)
      → select_one (has_id i) q.rows ≡ some r
      → IsExhausted max_retries r
      → ExhaustedAt max_retries i (write_replay h now a q)
  unfolding write_replay
  write_replay_keeps h now a q r e x = elim (Bool-cases a.allowed) [
    | inl t ↦
        let f = replayed_row a.replay_count (format_timestamp now) in
        rw t (
          updated_at (has_hash h) f q.rows (update (has_hash h) f q.rows) r
            (select_one-update (has_id i) (has_hash h) f (λ s. refl) q.rows) e
            (λ _. record { is_failed_row = x.is_failed_row; spent = x.spent }) x)
    | inr t ↦ rw t (r, e, x)
  ]

module _ (sha256 : String → String) (max_retries : ℤ) (i : ℕ) where
  save_keeps :
      (now : ℕ) (m : Incoming) (q : Messages) (r : MessageRecord)
      → select_one (has_id i) q.rows ≡ some r
      → select_one (has_id i) (save_message sha256 now m q).1.rows ≡ some r
  save_keeps now m q r e =
      let h = generate_message_hash sha256 m.topic m.raw_payload in
      elim (Option-cases (select_one (has_hash h) q.rows)) [
        | inl f ↦ rw (save_fresh sha256 now m q f) (select_one-append_some (has_id i) q.rows _ r e)
        | inr (d, f) ↦ rw (save_duplicate sha256 now m q d f) e
      ]

  claim_keeps :
      (b : ℤ) (now : ℕ) (q : Messages) (r : MessageRecord)
      → IsValid q
      → select_one (has_id i) q.rows ≡ some r
      → IsExhausted max_retries r
      → select_one (has_id i) (claim_pending_messages b max_retries now q).1.rows ≡ some r
  claim_keeps b now q r v e x = rw (claim-eq-one_pass b max_retries now q v) (
      change_first_keeps (is_claimable max_retries) (claimed (format_timestamp now)) (λ s. refl) i _
        q.rows r e (IsExhausted-not_claimable max_retries r x))

  replay_keeps :
      (h : String) (now : ℕ) (q : Messages) (r : MessageRecord)
      → select_one (has_id i) q.rows ≡ some r
      → IsExhausted max_retries r
      → ExhaustedAt max_retries i (record_ack_replay_attempt h now q).1
  unfolding record_ack_replay_attempt
  replay_keeps h now q r e x = elim (Option-cases (select_one (has_hash h) q.rows)) [
    | inl n ↦ rw (n, replay_row) (r, e, x)
    | inr (d, n) ↦
        rw (n, replay_row) (write_replay_keeps max_retries i h now (decide_replay now d) q r e x)
  ]

  apply_keeps :
      (o : Operation) (q : Messages)
      → IsValid q
      → Spares i o
      → ExhaustedAt max_retries i q
      → ExhaustedAt max_retries i (apply sha256 max_retries o q)
  unfolding apply mark_failed complete_message reset_stale_processing
  apply_keeps (save now m) q v s (r, e, x) = (r, save_keeps now m q r e, x)
  apply_keeps (claim b now) q v s (r, e, x) = (r, claim_keeps b now q r v e x, x)
  apply_keeps (fail j error at response retryable) q v s (r, e, x) =
      let set = failed_row error at response retryable (some max_retries) in
      updated_at max_retries i (has_id j) set q.rows _ r (update_one_rows j set q v (λ s. refl) i) e
        (λ _. failure-IsExhausted error at response retryable max_retries r x) x
  apply_keeps (complete j c) q v s (r, e, x) =
      updated_at max_retries i (has_id j) (completed_row c) q.rows _ r
        (update_one_rows j (completed_row c) q v (λ s. refl) i) e
        (λ p. absurd (ground (arith, s, p, select_one-holds (has_id i) q.rows r e))) x
  apply_keeps (recover stale_before excluded now) q v s (r, e, x) =
      let stale = is_stale stale_before excluded in
      let f = recovered (format_timestamp now) in
      updated_at max_retries i stale f q.rows (update stale f q.rows) r
        (select_one-update (has_id i) stale f (λ s. refl) q.rows) e
        (λ p. absurd (ground (arith, p, x.is_failed_row))) x
  apply_keeps (replay h now) q v s (r, e, x) = replay_keeps h now q r e x

  pub run_keeps :
      (os : List Operation) (q : Messages)
      → IsValid q
      → All (Spares i) os
      → ExhaustedAt max_retries i q
      → ExhaustedAt max_retries i (run sha256 max_retries os q)
  unfolding run
  run_keeps [] q v s x = x
  run_keeps (o ∷ os) q v s x =
      run_keeps os (apply sha256 max_retries o q) (apply-IsValid sha256 max_retries o q v) s.1
        (apply_keeps o q v s.0 x)
