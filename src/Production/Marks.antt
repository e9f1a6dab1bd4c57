-- ===== src/Production/Marks.antt =====
-- The marks that an upsert sets and keeps.
use blackbear_edge_bridge.Prelude.{
  ℕ, ◌≡◌, ◌∙◌, refl, Bool, true, false, Option, none, some, List, [], ◌∷◌, ◌++◌, arith, Bool-cases,
  inl, inr, select_one, update,
}
use blackbear_edge_bridge.Production.Tables.{ProductionRecord, Production}
use blackbear_edge_bridge.Production.Upsert.{
  Produced, same_group, increment_daily_summary, of_message, replaced_record, upsert_record,
  applied_flag, applied_record, upsert_production_record_and_summary, production_summary_applied,
}
use blackbear_edge_bridge.Production.Applied.{
  find_written, upserted, found_upserted, upsert_kept, upsert_counted, add-records,
}

-- After an upsert the record of the message is marked.
pub upsert-applied :
    (p : Produced) (now : ℕ) (d : Production)
    → production_summary_applied p.source.id (upsert_production_record_and_summary p now d).1 ≡ true
unfolding increment_daily_summary
upsert-applied p now d =
    let existing = select_one (of_message p.source.id) d.records in
    let (r, found, flag) = found_upserted p now d existing refl in
    elim (Bool-cases (production_summary_applied p.source.id d)) [
      | inl e ↦ rw (upsert_kept p now d e) (rw found (flag ∙ e))
      | inr e ↦ rw (upsert_counted p now d e) (
          rw
            (add-records p now (upserted p now d)
              (select_one (same_group p) (upserted p now d).summaries))
            (rw
              (find_written (of_message p.source.id) applied_record (λ x t. t)
                (upserted p now d).records r found)
              refl))
    ]

flag-update :
    (q p : ProductionRecord → Bool) (f : ProductionRecord → ProductionRecord)
    → ((r : ProductionRecord) → p r ≡ true → q (f r) ≡ q r)
    → ((r : ProductionRecord) → r.summary_applied ≡ true → (f r).summary_applied ≡ true)
    → (xs : List ProductionRecord) → applied_flag (select_one q xs) ≡ true
    → applied_flag (select_one q (update p f xs)) ≡ true
flag-update q p f k m [] h = h
flag-update q p f k m (x ∷ xs) h = elim (Bool-cases (p x)) [
  | inl t ↦ rw t (ground (arith, k x t, m x, h, flag-update q p f k m xs))
  | inr e ↦ rw e (ground (arith, h, flag-update q p f k m xs))
]

flag-append :
    (q : ProductionRecord → Bool) (xs ys : List ProductionRecord)
    → applied_flag (select_one q xs) ≡ true
    → applied_flag (select_one q (xs ++ ys)) ≡ true
flag-append q [] ys h = ground (arith, h)
flag-append q (x ∷ xs) ys h = ground (arith, h, flag-append q xs ys)

upserted-keeps_applied :
    (p : Produced) (now : ℕ) (d : Production) (i : ℕ) (o : Option ProductionRecord)
    → production_summary_applied i d ≡ true
    → production_summary_applied i (upsert_record p now o d) ≡ true
upserted-keeps_applied p now d i none h = flag-append (of_message i) d.records _ h
upserted-keeps_applied p now d i (some r) h =
    flag-update (of_message i) (of_message p.source.id) (replaced_record p)
      (λ x e. ground (arith, e)) (λ x e. e) d.records h

-- An upsert takes the mark from no message.
pub upsert-keeps_applied :
    (p : Produced) (now : ℕ) (d : Production) (i : ℕ)
    → production_summary_applied i d ≡ true
    → production_summary_applied i (upsert_production_record_and_summary p now d).1 ≡ true
unfolding increment_daily_summary
upsert-keeps_applied p now d i h =
    let still =
      upserted-keeps_applied p now d i (select_one (of_message p.source.id) d.records) h in
    elim (Bool-cases (production_summary_applied p.source.id d)) [
      | inl e ↦ rw (upsert_kept p now d e) still
      | inr e ↦ rw (upsert_counted p now d e) (
          rw
            (add-records p now (upserted p now d)
              (select_one (same_group p) (upserted p now d).summaries))
            (flag-update (of_message i) (of_message p.source.id) applied_record (λ x t. refl)
              (λ x t. refl) (upserted p now d).records still))
    ]

-- A second upsert of a message counts nothing.
pub upsert_upsert :
    (p p' : Produced) (now now' : ℕ) (d : Production)
    → p'.source.id ≡ p.source.id
    → let once = (upsert_production_record_and_summary p now d).1 in
      let twice = upsert_production_record_and_summary p' now' once in
      (twice.0 ≡ false) × (twice.1.summaries ≡ once.summaries)
upsert_upsert p p' now now' d same =
    let once = (upsert_production_record_and_summary p now d).1 in
    let marked : production_summary_applied p'.source.id once ≡ true =
      rw same (upsert-applied p now d) in
    rw (upsert_kept p' now' once marked)
      (refl, upserted-summaries p' now' once (select_one (of_message p'.source.id) once.records))
  where
    upserted-summaries :
        (p : Produced) (now : ℕ) (d : Production) (o : Option ProductionRecord)
        → (upsert_record p now o d).summaries ≡ d.summaries
    upserted-summaries p now d none = refl
    upserted-summaries p now d (some r) = refl
