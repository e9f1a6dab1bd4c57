-- ===== src/Cleanup/Outcomes.antt =====
-- The ways in which a call of `cleanup_raw_operational_data` (app/database.py) ends.
use blackbear_edge_bridge.Prelude.{
  ℕ, ◌≡◌, ◌⊎◌, inl, inr, refl, Bool, true, false, none, ℤ, is_neg, is_nonpos, pos_part, Bool-cases,
  if◌then◌else◌, arith,
}
use blackbear_edge_bridge.Errors.{
  Error, Result, ok, raise, negative_retention, date_overflow, database_error,
}
use blackbear_edge_bridge.Cleanup.Delete.{
  CleanupResult, nothing_deleted, SqliteFailure, no_failure, initialization_failure,
  transaction_failure, vacuum_failure, Tables, cutoff_of, cutoff_overflows, cleanup_tables, guarded,
  initialized, cleanup_raw_operational_data,
}

-- `initialize_database` raises nothing
abbrev pub initializes : SqliteFailure → Bool
initializes (initialization_failure text) = false
initializes _ = true

module _ (retention_days batch_size : ℤ) (vacuum : Bool) (failure : SqliteFailure) (now : ℕ)
    (t : Tables) where
  abbrev deleted : CleanupResult × Tables
  deleted = cleanup_tables (cutoff_of now (pos_part retention_days)) (pos_part batch_size) vacuum t

  abbrev tested : Result CleanupResult × Tables
  tested =
      if is_neg retention_days
      then (raise negative_retention, t)
      else if is_nonpos batch_size
      then (ok (nothing_deleted none), t)
      else if cutoff_overflows now (pos_part retention_days)
      then (raise date_overflow, t)
      else guarded failure deleted t

  -- once the database is initialized
  tested_outcomes :
      ((e : Error) × (tested ≡ (raise e, t)))
      ⊎ (tested ≡ (ok (nothing_deleted none), t))
      ⊎ (tested ≡ guarded failure deleted t)
  tested_outcomes = elim (Bool-cases (is_neg retention_days)) [
    | inl s ↦ inl (negative_retention, rw s refl)
    | inr s ↦ elim (Bool-cases (is_nonpos batch_size)) [
      | inl z ↦ inr (inl (rw (s, z) refl))
      | inr z ↦ elim (Bool-cases (cutoff_overflows now (pos_part retention_days))) [
        | inl o ↦ inl (date_overflow, rw (s, z, o) refl)
        | inr o ↦ inr (inr (rw (s, z, o) refl))
      ]
    ]
  ]

  -- A call raises and leaves the tables as they are, or deletes nothing, or makes the three deletions in the
  -- `try`.
  pub cleanup_outcomes :
      let call = cleanup_raw_operational_data retention_days batch_size vacuum failure now t in
      ((e : Error) × (call ≡ (raise e, t)))
      ⊎ (call ≡ (ok (nothing_deleted none), t))
      ⊎ (call ≡ guarded failure deleted t)
  unfolding cleanup_raw_operational_data
  cleanup_outcomes = by_failure failure tested_outcomes
    where
      by_failure :
          (f : SqliteFailure)
          → ((e : Error) × (tested ≡ (raise e, t)))
            ⊎ (tested ≡ (ok (nothing_deleted none), t))
            ⊎ (tested ≡ guarded failure deleted t)
          → ((e : Error) × (initialized f t tested ≡ (raise e, t)))
            ⊎ (initialized f t tested ≡ (ok (nothing_deleted none), t))
            ⊎ (initialized f t tested ≡ guarded failure deleted t)
      by_failure (initialization_failure text) o = inl (database_error text, refl)
      by_failure no_failure o = o
      by_failure (transaction_failure text) o = o
      by_failure (vacuum_failure text) o = o

  -- Nothing raises outside the `try` when the database is initialized, the retention is not negative and the
  -- cutoff is a date.
  pub cleanup_starts :
      initializes failure ≡ true
      → is_neg retention_days ≡ false
      → cutoff_overflows now (pos_part retention_days) ≡ false
      → let call = cleanup_raw_operational_data retention_days batch_size vacuum failure now t in
        (call ≡ (ok (nothing_deleted none), t)) ⊎ (call ≡ guarded failure deleted t)
  unfolding cleanup_raw_operational_data
  cleanup_starts i s o = by_failure failure i (elim (Bool-cases (is_nonpos batch_size)) [
    | inl z ↦ inl (rw (s, z) refl)
    | inr z ↦ inr (rw (s, z, o) refl)
  ])
    where
      by_failure :
          (f : SqliteFailure)
          → initializes f ≡ true
          → (tested ≡ (ok (nothing_deleted none), t)) ⊎ (tested ≡ guarded failure deleted t)
          → (initialized f t tested ≡ (ok (nothing_deleted none), t))
            ⊎ (initialized f t tested ≡ guarded failure deleted t)
      by_failure (initialization_failure text) i o = absurd (ground (arith, i))
      by_failure no_failure i o = o
      by_failure (transaction_failure text) i o = o
      by_failure (vacuum_failure text) i o = o

  guarded-after {ℓ} :
      (P : Tables → Type ℓ) (f : SqliteFailure) (r : CleanupResult) (t' : Tables)
      → P t'
      → P t
      → P (guarded f (r, t') t).1
  guarded-after P no_failure r t' p q = p
  guarded-after P (initialization_failure text) r t' p q = q
  guarded-after P (transaction_failure text) r t' p q = q
  guarded-after P (vacuum_failure text) r t' p q = p

  -- What holds of the tables before and after the deletions holds of the tables that are left.
  pub cleanup-after {ℓ} :
      (P : Tables → Type ℓ)
      → P deleted.1
      → P t
      → P (cleanup_raw_operational_data retention_days batch_size vacuum failure now t).1
  cleanup-after P p q = elim cleanup_outcomes [
    | inl (e, h) ↦ rw h q
    | inr (inl h) ↦ rw h q
    | inr (inr h) ↦ rw h (guarded-after P failure deleted.0 deleted.1 p q)
  ]
