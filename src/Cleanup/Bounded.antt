-- ===== src/Cleanup/Bounded.antt =====
-- How many rows a cleanup deletes.
use blackbear_edge_bridge.Prelude.{
  ℕ, suc, ◌+◌, ◌-◌, ◌≤◌, ◌≡◌, refl, Bool, false, List, [], ◌∷◌, arith, ℤ, pos_part, nat_eq, inl,
  inr, select, take, length, length-take-le, count, column, ap,
}
use blackbear_edge_bridge.Errors.{ok}
use blackbear_edge_bridge.Queue.Claim.{id_in}
use blackbear_edge_bridge.Cleanup.Outcomes.{cleanup_outcomes}
use blackbear_edge_bridge.Cleanup.Delete.{
  CleanupResult, total_deleted_rows, guarded, SqliteFailure, no_failure, initialization_failure,
  transaction_failure, vacuum_failure, Tables, delete_first, message_key, command_key, record_key,
  old_message, old_command, old_record, cutoff_of, cleanup_tables, cleanup_raw_operational_data,
}

module _ {ℓ} {A : Type ℓ} (key : A → ℕ) where
  -- no id stands in two rows
  abbrev pub HasUniqueIds : List A → Type 0
  HasUniqueIds rows = (i : ℕ) → count (λ r. nat_eq (key r) i) rows ≤ 1

  count_in :
      (is : List ℕ) (rows : List A)
      → HasUniqueIds rows
      → count (λ r. id_in is (key r)) rows ≤ length is
  count_in [] rows u = none_in rows
    where
      none_in : (rows : List A) → count (λ r. false) rows ≤ 0
      none_in [] = omega arith
      none_in (r ∷ rows) = ground (arith, none_in rows)
  count_in (i ∷ is) rows u = omega (arith, split i is rows, count_in is rows u, u i)
    where
      split :
          (i : ℕ) (is : List ℕ) (rows : List A)
          → count (λ r. id_in (i ∷ is) (key r)) rows
            ≤ count (λ r. nat_eq (key r) i) rows + count (λ r. id_in is (key r)) rows
      split i is [] = omega arith
      split i is (r ∷ rows) = ground (arith, split i is rows)

  length-column : (xs : List A) → length (column key xs) ≡ length xs
  length-column [] = refl
  length-column (r ∷ xs) = ap suc (length-column xs)

  delete_first_le :
      (n : ℕ) (p : A → Bool) (rows : List A) → HasUniqueIds rows → (delete_first key n p rows).0 ≤ n
  unfolding delete_first
  delete_first_le n p rows u =
      let chosen = take n (select p rows) in
      omega (
        arith,
        count_in (column key chosen) rows u,
        length-column chosen,
        length-take-le n (select p rows),
      )

guarded_le :
    (failure : SqliteFailure) (r : CleanupResult) (t' t : Tables) (n : ℕ) (r' : CleanupResult)
    → total_deleted_rows r ≤ n
    → (guarded failure (r, t') t).0 ≡ ok r'
    → total_deleted_rows r' ≤ n
guarded_le no_failure r t' t n r' h e = ground (arith, h, e)
guarded_le (initialization_failure text) r t' t n r' h e = absurd (ground (arith, e))
guarded_le (transaction_failure text) r t' t n r' h e = ground (arith, e)
guarded_le (vacuum_failure text) r t' t n r' h e = ground (arith, h, e)

-- A cleanup that returns a result deletes at most `batch_size` rows over the three tables together, when no
-- table has an id twice.
pub cleanup_bounded :
    (retention_days batch_size : ℤ) (vacuum : Bool) (failure : SqliteFailure) (now : ℕ) (t : Tables)
    (r : CleanupResult)
    → HasUniqueIds message_key t.database.messages.rows
    → HasUniqueIds command_key t.commands.rows
    → HasUniqueIds record_key t.database.production.records
    → (cleanup_raw_operational_data retention_days batch_size vacuum failure now t).0 ≡ ok r
    → total_deleted_rows r ≤ pos_part batch_size
unfolding cleanup_tables
cleanup_bounded retention_days batch_size vacuum failure now t r u v w result =
    elim (cleanup_outcomes retention_days batch_size vacuum failure now t) [
      | inl (x, h) ↦ absurd (ground (arith, result, h))
      | inr (inl h) ↦ ground (arith, result, h)
      | inr (inr h) ↦
          let cutoff = cutoff_of now (pos_part retention_days) in
          let batch = pos_part batch_size in
          let d = t.database.production in
          let n =
            (delete_first message_key batch (old_message cutoff d) t.database.messages.rows).0 in
          let k = (delete_first command_key (batch - n) (old_command cutoff) t.commands.rows).0 in
          let (r', t') = cleanup_tables cutoff batch vacuum t in
          guarded_le failure r' t' t batch r
            (omega (
              arith,
              delete_first_le message_key batch (old_message cutoff d) t.database.messages.rows u,
              delete_first_le command_key (batch - n) (old_command cutoff) t.commands.rows v,
              delete_first_le record_key (batch - n - k) (old_record cutoff) d.records w,
            ))
            (rw h at result)
    ]
