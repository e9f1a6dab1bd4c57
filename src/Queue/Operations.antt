-- ===== src/Queue/Operations.antt =====
-- The queue as its clients drive it: any sequence of the operations of app/database.py on
-- `mqtt_messages`, with the arguments that the MQTT client, the worker and the watchdog give.
use blackbear_edge_bridge.Prelude.{ℕ, refl, String, Bool, Option, some, List, [], ◌∷◌, ℤ}
use blackbear_edge_bridge.Errors.{transaction}
use blackbear_edge_bridge.Queue.Message.{Messages}
use blackbear_edge_bridge.Queue.Save.{Incoming, save_message}
use blackbear_edge_bridge.Queue.Claim.{claim_pending_messages}
use blackbear_edge_bridge.Queue.Mark.{
  Completion, complete_message, completed_row, mark_failed, reset_stale_processing,
}
use blackbear_edge_bridge.Queue.Replay.{record_ack_replay_attempt}
use blackbear_edge_bridge.Queue.WellFormed.{
  IsValid, save-IsValid, claim-IsValid, mark_failed-IsValid, reset-IsValid, replay-IsValid,
  update_one-IsValid,
}

pub data Operation : Type 0 where
  save : ℕ → Incoming → Operation
  claim : ℤ → ℕ → Operation
  fail : ℕ → String → ℕ → Option String → Bool → Operation
  complete : ℕ → Completion → Operation
  recover : ℕ → List ℕ → ℕ → Operation
  replay : String → ℕ → Operation

module _ (sha256 : String → String) (max_retries : ℤ) where
  unfoldable pub apply : Operation → Messages → Messages
  apply (save now m) q = (save_message sha256 now m q).1
  apply (claim batch_size now) q = (claim_pending_messages batch_size max_retries now q).1
  apply (fail i error at response retryable) q =
      (mark_failed i error at response retryable (some max_retries) q).1
  apply (complete i c) q = (transaction (complete_message i c) q).1
  apply (recover stale_before excluded now) q =
      (reset_stale_processing stale_before excluded now q).1
  apply (replay h now) q = (record_ack_replay_attempt h now q).1

  unfoldable pub run : List Operation → Messages → Messages
  run [] q = q
  run (o ∷ os) q = run os (apply o q)

  pub apply-IsValid : (o : Operation) (q : Messages) → IsValid q → IsValid (apply o q)
  unfolding apply
  apply-IsValid (save now m) q v = save-IsValid sha256 now m q v
  apply-IsValid (claim batch_size now) q v = claim-IsValid batch_size max_retries now q v
  apply-IsValid (fail i error at response retryable) q v =
      mark_failed-IsValid i error at response retryable (some max_retries) q v
  apply-IsValid (complete i c) q v =
      unfold complete_message in update_one-IsValid i (completed_row c) q (λ r. refl) (λ r. refl) v
  apply-IsValid (recover stale_before excluded now) q v =
      reset-IsValid stale_before excluded now q v
  apply-IsValid (replay h now) q v = replay-IsValid h now q v

  pub run-IsValid : (os : List Operation) (q : Messages) → IsValid q → IsValid (run os q)
  unfolding run
  run-IsValid [] q v = v
  run-IsValid (o ∷ os) q v = run-IsValid os (apply o q) (apply-IsValid o q v)
