-- ===== src/Cleanup/Kept.antt =====
-- What a cleanup keeps.
use blackbear_edge_bridge.Prelude.{
  ℕ, zero, suc, ◌+◌, ◌*◌, ◌≤◌, Option, none, true, ◌≡◌, ◌∙◌, refl, ap, Bool, false, some, List, [],
  ◌∷◌, arith, ℤ, pos_part, Bool-cases, inl, inr, select, select_one, select_one-head, take, delete,
  column,
}
use blackbear_edge_bridge.Queue.Message.{
  StatusValue, new, processing, completed, failed, is_completed, MessageRecord, has_id,
  get_message_by_id,
}
use blackbear_edge_bridge.Queue.Claim.{ids}
use blackbear_edge_bridge.Queue.WellFormed.{IsValid}
use blackbear_edge_bridge.Queue.Retries.{not_selected}
use blackbear_edge_bridge.Cleanup.Delete.{
  Tables, SqliteFailure, among_first, delete_first, message_key, completed_before, old_message,
  cutoff_of, cleanup_tables, cleanup_raw_operational_data,
}
use blackbear_edge_bridge.Cleanup.Outcomes.{cleanup-after}
use blackbear_edge_bridge.Time.{micros}
use blackbear_edge_bridge.Production.Tables.{ProductionRecord, Production}
use blackbear_edge_bridge.Production.Upsert.{of_message, applied_flag}

module _ {ℓ} {A : Type ℓ} where
  -- a row that is found and not deleted is found after
  select_one-delete :
      (p q : A → Bool) (rows : List A) (r : A)
      → select_one p rows ≡ some r
      → q r ≡ false
      → select_one p (delete q rows) ≡ some r
  select_one-delete p q [] r e h = ground (arith, e)
  select_one-delete p q (x ∷ rows) r e h = elim (Bool-cases (p x)) [
    | inl t ↦
        let same = select_one-head p x rows r t e in
        let kept : q x ≡ false = ap q same ∙ h in rw kept (rw t (ap some same))
    | inr f ↦
        let later = select_one-delete p q rows r (rw f at e) h in
        elim (Bool-cases (q x)) [ inl d ↦ rw d later | inr d ↦ rw d (rw f later) ]
  ]

column-take :
    (n : ℕ) (rows : List MessageRecord) → column message_key (take n rows) ≡ take n (ids rows)
column-take zero rows = refl
column-take (suc n) [] = refl
column-take (suc n) (r ∷ rows) = ap (λ t. r.id ∷ t) (column-take n rows)

-- A message that a cleanup may delete: it is COMPLETED, since more than the retention and in whole seconds,
-- and its production record is counted in a summary.
pub record IsExpired (retention_days now : ℕ) (d : Production) (m : MessageRecord) : Type 0 where
  pub is_done : m.status ≡ completed
  pub at : ℕ
  pub completed_then : m.completed_at ≡ some at
  pub is_past : suc (at + retention_days * 86400) * micros ≤ now
  pub produced : ProductionRecord
  pub is_found : select_one (of_message m.id) d.records ≡ some produced
  pub is_summarized : produced.summary_applied ≡ true

done : (s : StatusValue) → is_completed s ≡ true → s ≡ completed
done completed h = refl
done new h = absurd (ground (arith, h))
done processing h = absurd (ground (arith, h))
done failed h = absurd (ground (arith, h))

dated :
    (retention_days now : ℕ) (o : Option ℕ)
    → completed_before (cutoff_of now retention_days) o ≡ true
    → (at : ℕ) × (o ≡ some at) × (suc (at + retention_days * 86400) * micros ≤ now)
dated retention_days now none h = absurd (ground (arith, h))
dated retention_days now (some at) h = (at, refl, ground (arith, h))

summarized :
    (o : Option ProductionRecord)
    → applied_flag o ≡ true
    → (r : ProductionRecord) × (o ≡ some r) × (r.summary_applied ≡ true)
summarized none h = absurd (ground (arith, h))
summarized (some r) h = (r, refl, h)

expired :
    (retention_days now : ℕ) (d : Production) (m : MessageRecord)
    → old_message (cutoff_of now retention_days) d m ≡ true
    → IsExpired retention_days now d m
expired retention_days now d m h =
    let (at, e, past) = dated retention_days now m.completed_at (ground (arith, h)) in
    let (r, found, flag) =
      summarized (select_one (of_message m.id) d.records) (ground (arith, h)) in
    record {
      is_done = done m.status (ground (arith, h));
      at = at;
      completed_then = e;
      is_past = past;
      produced = r;
      is_found = found;
      is_summarized = flag;
    }

-- A cleanup keeps every daily summary, and every stored message but those that are COMPLETED since more than
-- the retention and whose production record is counted in a summary.
pub cleanup_keeps :
    (retention_days batch_size : ℤ) (vacuum : Bool) (failure : SqliteFailure) (now : ℕ) (t : Tables)
    (m : MessageRecord)
    → IsValid t.database.messages
    → get_message_by_id m.id t.database.messages ≡ some m
    → ¬ IsExpired (pos_part retention_days) now t.database.production m
    → let after = (cleanup_raw_operational_data retention_days batch_size vacuum failure now t).1 in
      (after.database.production.summaries ≡ t.database.production.summaries)
      × (get_message_by_id m.id after.database.messages ≡ some m)
unfolding cleanup_tables delete_first get_message_by_id
cleanup_keeps retention_days batch_size vacuum failure now t m v e kept =
    let p = old_message (cutoff_of now (pos_part retention_days)) t.database.production in
    let batch = pos_part batch_size in
    let rows = t.database.messages.rows in
    let h : p m ≡ false = not_expired (p m) refl in
    let spared : among_first message_key batch p rows m ≡ false =
      rw (column-take batch (select p rows))
        (not_selected p m.id batch 1 t.database.messages.next_id rows m v.ordered e h) in
    cleanup-after retention_days batch_size vacuum failure now t
      (λ after.
        (after.database.production.summaries ≡ t.database.production.summaries)
        × (get_message_by_id m.id after.database.messages ≡ some m))
      (refl, select_one-delete (has_id m.id) (among_first message_key batch p rows) rows m e spared)
      (refl, e)
  where
    not_expired :
        (b : Bool)
        → old_message (cutoff_of now (pos_part retention_days)) t.database.production m ≡ b
        → b ≡ false
    not_expired true h =
        absurd (kept (expired (pos_part retention_days) now t.database.production m h))
    not_expired false h = refl
