-- ===== src/Cleanup/Snapshots.antt =====
-- The cleanups that `SQLiteLifecycleManager` of app/sqlite_lifecycle.py repeats, and what its snapshot
-- tells of them.
use blackbear_edge_bridge.Prelude.{
  ℕ, ◌+◌, ◌≡◌, ◌⊎◌, refl, String, true, false, none, some, List, ◌∷◌, pos_part, is_neg, is_nonpos,
}
use blackbear_edge_bridge.Errors.{Result, raise, negative_retention, date_overflow, Error}
use blackbear_edge_bridge.Time.{format_timestamp}
use blackbear_edge_bridge.Cleanup.Delete.{
  CleanupResult, nothing_deleted, no_failure, cutoff_overflows, Tables,
  cleanup_raw_operational_data,
}
use blackbear_edge_bridge.Cleanup.Outcomes.{initializes}
use blackbear_edge_bridge.Cleanup.Report.{row_count}
use blackbear_edge_bridge.Cleanup.Lifecycle.{
  LifecycleSettings, CleanupRound, Lifecycle, cleanup_once, cleanup_loop,
}

module _ (settings : LifecycleSettings) where
  -- no error, or nothing deleted
  abbrev IsHonest : CleanupResult → Type 0
  IsHonest r = (r.error ≡ none) ⊎ ((text : String) × (r ≡ nothing_deleted (some text)))

  -- a round in which nothing raises outside the `try`
  abbrev pub Starts : CleanupRound → Type 0
  Starts round =
      (initializes round.failure ≡ true)
      × (cutoff_overflows round.now (pos_part settings.retention_days) ≡ false)

  -- the call in a round
  abbrev call_of : CleanupRound → Lifecycle → Result CleanupResult × Tables
  call_of round m =
      cleanup_raw_operational_data settings.retention_days settings.cleanup_batch_size
        settings.vacuum_enabled round.failure round.now m.tables

  -- What the last of the cleanups leaves, of the manager before it: its time, and either the number of
  -- rows that it deleted and no error, or no rows and the error.
  abbrev pub Reports : CleanupRound → Lifecycle → Lifecycle → Type 0
  Reports last before after =
      (after.snapshot.last_cleanup_at ≡ some (format_timestamp last.recorded))
      × (((n : ℕ) × (after.snapshot.last_cleanup_deleted_rows ≡ some n)
            × (after.snapshot.last_cleanup_error ≡ none)
            × (row_count after.tables + n ≡ row_count before.tables))
          ⊎ ((text : String) × (after.snapshot.last_cleanup_error ≡ some text)
              × (after.snapshot.last_cleanup_deleted_rows ≡ some 0)))

  -- A cleanup that raises ends the thread: the other rounds are not run, the snapshot stays as it was and
  -- says nothing of an error, and no row is deleted.
  raise_stops :
      (round : CleanupRound) (rounds : List CleanupRound) (m : Lifecycle) (e : Error)
      → call_of round m ≡ (raise e, m.tables)
      → cleanup_loop settings (round ∷ rounds) m ≡ (raise e, m)
  unfolding cleanup_loop cleanup_once
  raise_stops round rounds m e h = rw h refl

  -- So it is with a negative retention, once the database is initialized.
  pub negative_retention_stops :
      (round : CleanupRound) (rounds : List CleanupRound) (m : Lifecycle)
      → round.failure ≡ no_failure
      → is_neg settings.retention_days ≡ true
      → cleanup_loop settings (round ∷ rounds) m ≡ (raise negative_retention, m)
  negative_retention_stops round rounds m f s =
      raise_stops round rounds m negative_retention (raises f s)
    where
      raises :
          round.failure ≡ no_failure
          → is_neg settings.retention_days ≡ true
          → call_of round m ≡ (raise negative_retention, m.tables)
      raises f s = unfold cleanup_raw_operational_data in rw (f, s) refl

  -- So it is with a retention that reaches back before the first year.
  pub large_retention_stops :
      (round : CleanupRound) (rounds : List CleanupRound) (m : Lifecycle)
      → round.failure ≡ no_failure
      → is_neg settings.retention_days ≡ false
      → is_nonpos settings.cleanup_batch_size ≡ false
      → cutoff_overflows round.now (pos_part settings.retention_days) ≡ true
      → cleanup_loop settings (round ∷ rounds) m ≡ (raise date_overflow, m)
  large_retention_stops round rounds m f s z o =
      raise_stops round rounds m date_overflow (raises f s z o)
    where
      raises :
          round.failure ≡ no_failure
          → is_neg settings.retention_days ≡ false
          → is_nonpos settings.cleanup_batch_size ≡ false
          → cutoff_overflows round.now (pos_part settings.retention_days) ≡ true
          → call_of round m ≡ (raise date_overflow, m.tables)
      raises f s z o = unfold cleanup_raw_operational_data in rw (f, s, z, o) refl
