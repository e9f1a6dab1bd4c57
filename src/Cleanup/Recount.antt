-- ===== src/Cleanup/Recount.antt =====
-- A reconciliation after a cleanup (app/database.py): what waits to be counted.
use blackbear_edge_bridge.Prelude.{
  ℕ, ◌-◌, ◌≡◌, ◌⊎◌, refl, sym, ap, Bool, true, false, Option, some, none, List, [], ◌∷◌, arith, ℤ,
  pos_part, Bool-cases, inl, inr, select, select_one, delete, column, All, Ascending, ltb,
  if◌then◌else◌,
}
use mathlib.Core.Path.{subst}
use blackbear_edge_bridge.Json.{Codec}
use blackbear_edge_bridge.Queue.Message.{is_completed, MessageRecord}
use blackbear_edge_bridge.Queue.WellFormed.{IsValid}
use blackbear_edge_bridge.Production.Tables.{ProductionRecord, Production}
use blackbear_edge_bridge.Production.Upsert.{of_message}
use blackbear_edge_bridge.Production.Complete.{awaits_summary}
use blackbear_edge_bridge.Cleanup.Outcomes.{cleanup-after}
use blackbear_edge_bridge.Cleanup.Delete.{
  Tables, SqliteFailure, delete_first, message_key, command_key, record_key, old_message,
  old_command, old_record, cutoff_of, cleanup_tables, cleanup_raw_operational_data,
}
use blackbear_edge_bridge.Cleanup.First.{
  drop_first, dropped, drop_all, found-drop_first, select-drop_first, delete_first-eq-drop_first,
}

-- the record of a COMPLETED message bears the time at which the message was completed
abbrev pub IsDated : Production → MessageRecord → Type 0
IsDated d m =
    (r : ProductionRecord) (at : ℕ)
    → select_one (of_message m.id) d.records ≡ some r
    → is_completed m.status ≡ true
    → m.completed_at ≡ some at
    → r.completed_at ≡ at

module _ (codec : Codec) (cutoff : ℕ) (d : Production) where
  abbrev waits : MessageRecord → Bool
  waits = awaits_summary codec d

  old_waits_not : (m : MessageRecord) → old_message cutoff d m ≡ true → waits m ≡ false
  old_waits_not m h = ground (arith, h)

  module _ (j : ℕ) where
    abbrev after : Production
    after = record d { records = drop_first (old_record cutoff) j d.records }

    -- a message that stays waits after exactly when it waited before
    stays :
        (m : MessageRecord)
        → IsDated d m
        → old_message cutoff d m ≡ false
        → awaits_summary codec after m ≡ waits m
    stays m dated h = by_record (found-drop_first (old_record cutoff) (of_message m.id) j d.records)
      where
        by_time :
            (r : ProductionRecord) (s : Bool) (o : Option ℕ)
            → is_completed m.status ≡ s
            → m.completed_at ≡ o
            → select_one (of_message m.id) d.records ≡ some r
            → old_record cutoff r ≡ true
            → awaits_summary codec after m ≡ waits m
        by_time r false o s t e old = rw s refl
        by_time r true none s t e old = rw s (rw t refl)
        by_time r true (some at) s t e old =
            absurd (ground (arith, h, old, dated r at e s t, s, t, e))

        by_record :
            ((select_one (of_message m.id) after.records ≡ select_one (of_message m.id) d.records)
              ⊎ ((r : ProductionRecord) × (select_one (of_message m.id) d.records ≡ some r)
                  × (old_record cutoff r ≡ true)))
            → awaits_summary codec after m ≡ waits m
        by_record (inl e) = rw e refl
        by_record (inr (r, e, old)) =
            by_time r (is_completed m.status) m.completed_at refl refl e old

    select-delete :
        (ms : List MessageRecord)
        → All (IsDated d) ms
        → select (awaits_summary codec after) (delete (old_message cutoff d) ms) ≡ select waits ms
    select-delete [] a = refl
    select-delete (m ∷ ms) a = elim (Bool-cases (old_message cutoff d m)) [
      | inl t ↦ rw t (rw (old_waits_not m t) (select-delete ms a.1))
      | inr f ↦
          rw f
            (rw (stays m a.0 f) (ap (λ xs. if waits m then m ∷ xs else xs) (select-delete ms a.1)))
    ]

  -- the deletion of messages and then of records, whatever was deleted in between
  dropped-waits :
      (batch k : ℕ) (ms : List MessageRecord)
      → All (IsDated d) ms
      → select
          (awaits_summary codec (after (batch - dropped (old_message cutoff d) batch ms - k)))
          (drop_first (old_message cutoff d) batch ms)
        ≡ select waits ms
  dropped-waits batch k ms a =
      let n = dropped (old_message cutoff d) batch ms in
      elim (Bool-cases (ltb n batch)) [
        | inl t ↦
            rw (drop_all (old_message cutoff d) batch ms (ground (arith, t)))
              (select-delete (batch - n - k) ms a)
        | inr f ↦
            let none_left : batch - n - k ≡ 0 = ground (arith, f) in
            subst
              (λ j.
                select (awaits_summary codec (after j)) (drop_first (old_message cutoff d) batch ms)
                ≡ select waits ms)
              (sym none_left)
              (select-drop_first (old_message cutoff d) waits old_waits_not batch ms)
      ]

  deletions_wait :
      (batch k n : ℕ) (ms ms' : List MessageRecord) (records' : List ProductionRecord)
      → All (IsDated d) ms
      → ms' ≡ drop_first (old_message cutoff d) batch ms
      → n ≡ dropped (old_message cutoff d) batch ms
      → records' ≡ drop_first (old_record cutoff) (batch - n - k) d.records
      → select (awaits_summary codec (record d { records = records' })) ms' ≡ select waits ms
  deletions_wait batch k n ms ms' records' a e f g = rw g (rw f (rw e (dropped-waits batch k ms a)))

-- A cleanup changes nothing of what waits to be counted: on well-formed tables whose records bear the
-- times at which their messages were completed, the messages that the next reconciliation finds are the
-- same as before the cleanup. So no production is counted again after its record is deleted, and none
-- that was not counted is lost.
pub cleanup_waits :
    (codec : Codec) (retention_days batch_size : ℤ) (vacuum : Bool) (failure : SqliteFailure)
    (now : ℕ) (t : Tables)
    → IsValid t.database.messages
    → Ascending 1
        (column record_key t.database.production.records)
        t.database.production.next_record_id
    → All (IsDated t.database.production) t.database.messages.rows
    → let after = (cleanup_raw_operational_data retention_days batch_size vacuum failure now t).1 in
      select (awaits_summary codec after.database.production) after.database.messages.rows
      ≡ select (awaits_summary codec t.database.production) t.database.messages.rows
unfolding cleanup_tables delete_first
cleanup_waits codec retention_days batch_size vacuum failure now t v w a =
    let cutoff = cutoff_of now (pos_part retention_days) in
    let d = t.database.production in
    let p = old_message cutoff d in
    let batch = pos_part batch_size in
    let rows = t.database.messages.rows in
    let (gone, n) =
      delete_first-eq-drop_first message_key p batch 1 t.database.messages.next_id rows v.ordered in
    let counted = (delete_first message_key batch p rows).0 in
    let k = (delete_first command_key (batch - counted) (old_command cutoff) t.commands.rows).0 in
    let (dropped_records, _) =
      delete_first-eq-drop_first record_key (old_record cutoff) (batch - counted - k) 1
        d.next_record_id d.records w in
    cleanup-after retention_days batch_size vacuum failure now t
      (λ after.
        select (awaits_summary codec after.database.production) after.database.messages.rows
        ≡ select (awaits_summary codec d) rows)
      (deletions_wait codec cutoff d batch k counted rows (delete_first message_key batch p rows).1
        (delete_first record_key (batch - counted - k) (old_record cutoff) d.records).1 a gone n
        dropped_records)
      refl
