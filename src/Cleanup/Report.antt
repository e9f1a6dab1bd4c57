-- ===== src/Cleanup/Report.antt =====
-- What the result of a cleanup (app/database.py) says against what was deleted.
use blackbear_edge_bridge.Prelude.{
  ℕ, ◌+◌, ◌-◌, ◌<◌, ◌≡◌, refl, String, Bool, true, false, none, some, arith, ℤ, is_neg, is_nonpos,
  pos_part, nat_eq, inl, inr, length, length-delete,
}
use blackbear_edge_bridge.Errors.{ok}
use blackbear_edge_bridge.Cleanup.Outcomes.{cleanup_outcomes}
use blackbear_edge_bridge.Cleanup.Delete.{
  CleanupResult, total_deleted_rows, nothing_deleted, SqliteFailure, no_failure,
  initialization_failure, transaction_failure, vacuum_failure, guarded, Tables, among_first,
  delete_first, message_key, command_key, record_key, old_message, old_command, old_record,
  cutoff_of, cutoff_overflows, cleanup_tables, cleanup_raw_operational_data,
}

-- the number of rows in the three tables
abbrev pub row_count : Tables → ℕ
row_count t =
    length t.database.messages.rows + length t.commands.rows + length t.database.production.records

tables_exact :
    (cutoff batch : ℕ) (vacuum : Bool) (t : Tables)
    → let (r, t') = cleanup_tables cutoff batch vacuum t in
      row_count t' + total_deleted_rows r ≡ row_count t
unfolding cleanup_tables delete_first
tables_exact cutoff batch vacuum t =
    let d = t.database.production in
    let messages = t.database.messages.rows in
    let n = (delete_first message_key batch (old_message cutoff d) messages).0 in
    let k = (delete_first command_key (batch - n) (old_command cutoff) t.commands.rows).0 in
    omega (
      arith,
      length-delete (among_first message_key batch (old_message cutoff d) messages) messages,
      length-delete (among_first command_key (batch - n) (old_command cutoff) t.commands.rows)
          t.commands.rows,
      length-delete (among_first record_key (batch - n - k) (old_record cutoff) d.records)
          d.records,
    )

guarded_exact :
    (failure : SqliteFailure) (r : CleanupResult) (t' t : Tables)
    → row_count t' + total_deleted_rows r ≡ row_count t
    → (r' : CleanupResult) → (guarded failure (r, t') t).0 ≡ ok r'
    → r'.error ≡ none
    → row_count (guarded failure (r, t') t).1 + total_deleted_rows r' ≡ row_count t
guarded_exact no_failure r t' t h r' e n = ground (arith, h, e, n)
guarded_exact (initialization_failure text) r t' t h r' e n = absurd (ground (arith, e))
guarded_exact (transaction_failure text) r t' t h r' e n = absurd (ground (arith, e, n))
guarded_exact (vacuum_failure text) r t' t h r' e n = ground (arith, h, e, n)

-- A cleanup that reports no error deleted exactly as many rows of the three tables as it reports.
pub report_is_exact :
    (retention_days batch_size : ℤ) (vacuum : Bool) (failure : SqliteFailure) (now : ℕ) (t : Tables)
    (r : CleanupResult)
    → (cleanup_raw_operational_data retention_days batch_size vacuum failure now t).0 ≡ ok r
    → r.error ≡ none
    → row_count (cleanup_raw_operational_data retention_days batch_size vacuum failure now t).1
        + total_deleted_rows r
      ≡ row_count t
report_is_exact retention_days batch_size vacuum failure now t r e n =
    elim (cleanup_outcomes retention_days batch_size vacuum failure now t) [
      | inl (x, h) ↦ absurd (ground (arith, e, h))
      | inr (inl h) ↦ rw h (ground (arith, rw h at e))
      | inr (inr h) ↦
          let cutoff = cutoff_of now (pos_part retention_days) in
          let (r', t') = cleanup_tables cutoff (pos_part batch_size) vacuum t in
          rw h (
            guarded_exact failure r' t' t (tables_exact cutoff (pos_part batch_size) vacuum t) r
              (rw h at e) n)
    ]

-- When VACUUM fails after deletions, the cleanup reports no deleted row and the error, although the rows
-- are gone: fewer rows are left by the number that the deletions removed, which is not 0.
pub failed_vacuum_hides :
    (retention_days batch_size : ℤ) (text : String) (now : ℕ) (t : Tables)
    → is_neg retention_days ≡ false
    → is_nonpos batch_size ≡ false
    → cutoff_overflows now (pos_part retention_days) ≡ false
    → 0
      < total_deleted_rows
          (cleanup_tables (cutoff_of now (pos_part retention_days)) (pos_part batch_size) true t).0
    → let (result, after) =
        cleanup_raw_operational_data retention_days batch_size true (vacuum_failure text) now t in
      (result ≡ ok (nothing_deleted (some text)))
      × (row_count after
            + total_deleted_rows
                (cleanup_tables
                  (cutoff_of now (pos_part retention_days))
                  (pos_part batch_size)
                  true
                  t).0
          ≡ row_count t)
unfolding cleanup_raw_operational_data cleanup_tables
failed_vacuum_hides retention_days batch_size text now t s z o some_removed =
    let cutoff = cutoff_of now (pos_part retention_days) in
    let (r, t') = cleanup_tables cutoff (pos_part batch_size) true t in
    let ran : nat_eq (total_deleted_rows r) 0 ≡ false = ground (arith, some_removed) in
    rw s (rw z (rw o (rw ran refl, tables_exact cutoff (pos_part batch_size) true t)))
