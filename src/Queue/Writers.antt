-- ===== src/Queue/Writers.antt =====
-- The table `mqtt_messages` under all that writes it: the operations of app/database.py on it that the
-- MQTT client, the worker and the watchdog call, `update_status`, `mark_failed` without a limit of
-- retries, and the DELETE of `cleanup_raw_operational_data`.
use blackbear_edge_bridge.Prelude.{
  ℕ, suc, ◌≢◌, String, Bool, Option, List, [], ◌∷◌, ℤ, arith, All, Ascending, Ascending-weaken,
  Distinct, column, delete, Bool-cases, inl, inr,
}
use blackbear_edge_bridge.Queue.Message.{Messages}
use blackbear_edge_bridge.Queue.Mark.{update_status, mark_failed}
use blackbear_edge_bridge.Queue.WellFormed.{IsValid, update_status-IsValid, mark_failed-IsValid}
use blackbear_edge_bridge.Queue.Operations.{Operation, apply, apply-IsValid}
use blackbear_edge_bridge.Production.Tables.{Production}
use blackbear_edge_bridge.Cleanup.Delete.{message_key, old_message, delete_first}

module _ {ℓ} {A : Type ℓ} (p : A → Bool) where
  Ascending-delete :
      (key : A → ℕ) (lo hi : ℕ) (rows : List A)
      → Ascending lo (column key rows) hi
      → Ascending lo (column key (delete p rows)) hi
  Ascending-delete key lo hi [] a = a
  Ascending-delete key lo hi (x ∷ rows) a =
      let rest = Ascending-delete key (suc (key x)) hi rows a.1 in
      elim (Bool-cases (p x)) [
        | inl t ↦ rw t (Ascending-weaken (suc (key x)) lo _ hi (omega (arith, a.0)) rest)
        | inr f ↦ rw f (a.0, rest)
      ]

  All-delete :
      {B : Type 0} (key : A → B) (P : B → Type 0) (rows : List A)
      → All P (column key rows)
      → All P (column key (delete p rows))
  All-delete key P [] a = a
  All-delete key P (x ∷ rows) a = elim (Bool-cases (p x)) [
    | inl t ↦ rw t (All-delete key P rows a.1)
    | inr f ↦ rw f (a.0, All-delete key P rows a.1)
  ]

  Distinct-delete :
      {B : Type 0} (key : A → B) (rows : List A)
      → Distinct (column key rows)
      → Distinct (column key (delete p rows))
  Distinct-delete key [] d = d
  Distinct-delete key (x ∷ rows) d = elim (Bool-cases (p x)) [
    | inl t ↦ rw t (Distinct-delete key rows d.1)
    | inr f ↦ rw f (All-delete key (λ y. y ≢ key x) rows d.0, Distinct-delete key rows d.1)
  ]

-- The DELETE of the cleanup has the size of its batch and its cutoff, and reads the production tables.
pub data Write : Type 0 where
  operation : Operation → Write
  set_status : ℕ → String → Option ℕ → ℕ → Write
  fail_with : ℕ → String → ℕ → Option String → Bool → Option ℤ → Write
  delete_old : ℕ → ℕ → Production → Write

module _ (sha256 : String → String) (max_retries : ℤ) where
  unfoldable pub write : Write → Messages → Messages
  write (operation o) q = apply sha256 max_retries o q
  write (set_status i text processed_at now) q = (update_status i text processed_at now q).1
  write (fail_with i error at response retryable retries) q =
      (mark_failed i error at response retryable retries q).1
  write (delete_old batch cutoff d) q = record q {
    rows = (delete_first message_key batch (old_message cutoff d) q.rows).1;
  }

  unfoldable pub writes : List Write → Messages → Messages
  writes [] q = q
  writes (w ∷ ws) q = writes ws (write w q)

  write-IsValid : (w : Write) (q : Messages) → IsValid q → IsValid (write w q)
  unfolding write delete_first
  write-IsValid (operation o) q v = apply-IsValid sha256 max_retries o q v
  write-IsValid (set_status i text processed_at now) q v =
      update_status-IsValid i text processed_at now q v
  write-IsValid (fail_with i error at response retryable retries) q v =
      mark_failed-IsValid i error at response retryable retries q v
  write-IsValid (delete_old batch cutoff d) q v = record {
    ordered = Ascending-delete _ message_key 1 q.next_id q.rows v.ordered;
    distinct = Distinct-delete _ (λ r. r.message_hash) q.rows v.distinct;
  }

  -- Whatever writes the table, in any order and with any arguments, the ids of the table increase and stay
  -- below the next id, and no two rows have one hash. The writes are a save, a claim, a completion, a
  -- failure with a limit of retries or without, a recovery, a replay, `update_status` and the DELETE of the
  -- cleanup.
  pub writes-IsValid : (ws : List Write) (q : Messages) → IsValid q → IsValid (writes ws q)
  unfolding writes
  writes-IsValid [] q v = v
  writes-IsValid (w ∷ ws) q v = writes-IsValid ws (write w q) (write-IsValid w q v)
