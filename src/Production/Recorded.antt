-- ===== src/Production/Recorded.antt =====
-- What `_upsert_production_record_and_summary` of app/database.py leaves of one completion.
use blackbear_edge_bridge.Prelude.{
  ℕ, ◌+◌, ◌≡◌, ◌∙◌, refl, sym, ap, String, true, Option, none, some, arith, Bool-cases, inl, inr,
  nat_eq_refl, select_one, select_one-append_none, if◌then◌else◌,
}
use blackbear_edge_bridge.Production.Tables.{ProductionRecord, Production}
use blackbear_edge_bridge.Production.Upsert.{
  Produced, same_group, increment_daily_summary, of_message, new_record, replaced_record,
  upsert_record, applied_flag, applied_record, upsert_production_record_and_summary,
  production_summary_applied,
}
use blackbear_edge_bridge.Production.Balance.{IsBalanced, total, add-total}
use blackbear_edge_bridge.Production.Applied.{
  find_written, found_upserted, upserted, upsert_kept, upsert_counted, upserted-IsBalanced,
  add-records,
}

-- The record of the message bears the acknowledgement, the response and the time, and is marked; and the
-- summaries count one piece more than before, unless the message was marked already.
pub record IsRecorded (i at : ℕ) (ack response : String) (before after : Production) : Type 0 where
  pub produced : ProductionRecord
  pub is_found : select_one (of_message i) after.records ≡ some produced
  pub has_ack : produced.ack ≡ ack
  pub has_response : produced.raw_odoo_response ≡ response
  pub has_time : produced.completed_at ≡ at
  pub is_marked : produced.summary_applied ≡ true
  pub is_counted :
      total after.summaries
      ≡ total before.summaries + (if production_summary_applied i before then 0 else 1)

-- the values of the completion in a record
abbrev Bears : Produced → ProductionRecord → Type 0
Bears p r =
    (r.ack ≡ p.ack)
    × (r.raw_odoo_response ≡ p.raw_odoo_response)
    × (r.completed_at ≡ p.completed_at)

written_record :
    (p : Produced) (now : ℕ) (d : Production) (o : Option ProductionRecord)
    → select_one (of_message p.source.id) d.records ≡ o
    → (r : ProductionRecord) × (select_one
          (of_message p.source.id)
          (upsert_record p now o d).records
        ≡ some r)
      × Bears p r
written_record p now d none h =
    let fresh = new_record d.next_record_id p now in
    (
      fresh,
      rw (select_one-append_none (of_message p.source.id) d.records fresh h)
          (rw (nat_eq_refl p.source.id) refl),
      (refl, refl, refl),
    )
written_record p now d (some r) h =
    let found =
      find_written (of_message p.source.id) (replaced_record p) (λ x e. nat_eq_refl p.source.id)
        d.records r h in
    (replaced_record p r, found, (refl, refl, refl))

upserted-summaries :
    (p : Produced) (now : ℕ) (d : Production) (o : Option ProductionRecord)
    → (upsert_record p now o d).summaries ≡ d.summaries
upserted-summaries p now d none = refl
upserted-summaries p now d (some r) = refl

marked_before :
    (p : Produced) (now : ℕ) (d : Production)
    → production_summary_applied p.source.id d ≡ true
    → (r : ProductionRecord)
    → select_one (of_message p.source.id) (upserted p now d).records ≡ some r
    → r.summary_applied ≡ true
marked_before p now d e r h =
    let (r', found, flag) =
      found_upserted p now d (select_one (of_message p.source.id) d.records) refl in
    ap applied_flag (sym h ∙ found) ∙ flag ∙ e

pub upsert-IsRecorded :
    (p : Produced) (now : ℕ) (d : Production)
    → IsBalanced d
    → IsRecorded p.source.id p.completed_at p.ack p.raw_odoo_response d
        (upsert_production_record_and_summary p now d).1
unfolding increment_daily_summary
upsert-IsRecorded p now d b =
    let existing = select_one (of_message p.source.id) d.records in
    let (r, found, bears) = written_record p now d existing refl in
    let u = upserted p now d in
    let same = upserted-summaries p now d existing in
    elim (Bool-cases (production_summary_applied p.source.id d)) [
      | inl e ↦ rw (upsert_kept p now d e) (record {
        produced = r;
        is_found = found;
        has_ack = bears.0;
        has_response = bears.1;
        has_time = bears.2;
        is_marked = marked_before p now d e r found;
        is_counted = rw e (rw same (omega arith));
      })
      | inr e ↦
          let group = select_one (same_group p) u.summaries in
          rw (upsert_counted p now d e) (record {
            produced = applied_record r;
            is_found =
                rw (add-records p now u group) (
                  find_written (of_message p.source.id) applied_record (λ x t. t) u.records r
                    found);
            has_ack = bears.0;
            has_response = bears.1;
            has_time = bears.2;
            is_marked = refl;
            is_counted = rw e (
                omega (
                  arith,
                  add-total p now u group refl (upserted-IsBalanced p now d existing refl b).ids,
                  ap total same,
                ));
          })
    ]
