-- ===== src/Production/Applied.antt =====
-- What an upsert does to the records and to the balance of the summaries.
use blackbear_edge_bridge.Prelude.{
  ℕ, suc, ◌≤◌, ◌≡◌, ◌∙◌, refl, ap, Bool, true, false, Option, none, some, List, [], ◌∷◌,
  nat_eq_refl, arith, Bool-cases, inl, inr, select_one, update, count, select_one-head,
  count-append, count_of_none, select_one-append_none,
}
use blackbear_edge_bridge.Production.Tables.{ProductionRecord, DailySummary, Production}
use blackbear_edge_bridge.Production.Upsert.{
  Produced, same_group, add_to_summary, increment_daily_summary, of_message, new_record,
  replaced_record, upsert_record, applied_flag, applied_record, mark_applied,
  upsert_production_record_and_summary, production_summary_applied,
}
use blackbear_edge_bridge.Production.Balance.{
  applied, IsBalanced, add-total, add-ids, count-mark, count-keep,
}

-- the records after the insert or the update of the record
abbrev pub upserted : Produced → ℕ → Production → Production
upserted p now d = upsert_record p now (select_one (of_message p.source.id) d.records) d

pub find_written :
    (q : ProductionRecord → Bool) (f : ProductionRecord → ProductionRecord)
    → ((x : ProductionRecord) → q x ≡ true → q (f x) ≡ true)
    → (xs : List ProductionRecord) (r : ProductionRecord) → select_one q xs ≡ some r
    → select_one q (update q f xs) ≡ some (f r)
find_written q f k [] r h = ground arith
find_written q f k (x ∷ xs) r h = elim (Bool-cases (q x)) [
  | inl t ↦ rw t (rw (k x t) (ap (λ y. some (f y)) (select_one-head q x xs r t h)))
  | inr e ↦ rw e (rw e (find_written q f k xs r (rw e at h)))
]

-- the record of the message stands in the table, with the mark that it had
pub found_upserted :
    (p : Produced) (now : ℕ) (d : Production) (o : Option ProductionRecord)
    → select_one (of_message p.source.id) d.records ≡ o
    → (r : ProductionRecord) × (select_one
          (of_message p.source.id)
          (upsert_record p now o d).records
        ≡ some r)
      × (r.summary_applied ≡ applied_flag o)
found_upserted p now d none h =
    let fresh = new_record d.next_record_id p now in
    (
      fresh,
      rw (select_one-append_none (of_message p.source.id) d.records fresh h)
          (rw (nat_eq_refl p.source.id) refl),
      refl,
    )
found_upserted p now d (some r) h =
    let found =
      find_written (of_message p.source.id) (replaced_record p) (λ x e. nat_eq_refl p.source.id)
        d.records r h in
    (replaced_record p r, found, refl)

upserted_unique :
    (p : Produced) (now : ℕ) (d : Production) (o : Option ProductionRecord)
    → select_one (of_message p.source.id) d.records ≡ o
    → ((i : ℕ) → count (of_message i) d.records ≤ 1)
    → (i : ℕ) → count (of_message i) (upsert_record p now o d).records ≤ 1
upserted_unique p now d none h u i = ground (
  arith,
  count-append (of_message i) d.records (new_record d.next_record_id p now ∷ []),
  u i,
  count_of_none (of_message p.source.id) d.records h,
)
upserted_unique p now d (some r) h u i =
    rw
      (count-keep (of_message i) (of_message p.source.id) (replaced_record p)
        (λ x e. ground (arith, e)) d.records)
      (u i)

upserted-applied :
    (p : Produced) (now : ℕ) (d : Production) (o : Option ProductionRecord)
    → count applied (upsert_record p now o d).records ≡ count applied d.records
upserted-applied p now d none =
    ground (arith, count-append applied d.records (new_record d.next_record_id p now ∷ []))
upserted-applied p now d (some r) =
    count-keep applied (of_message p.source.id) (replaced_record p) (λ x e. refl) d.records

-- the mark of the record that is upserted, and the tables after it
pub upsert_kept :
    (p : Produced) (now : ℕ) (d : Production)
    → production_summary_applied p.source.id d ≡ true
    → upsert_production_record_and_summary p now d ≡ (false, upserted p now d)
unfolding upsert_production_record_and_summary
upsert_kept p now d e = rw e refl

pub upsert_counted :
    (p : Produced) (now : ℕ) (d : Production)
    → production_summary_applied p.source.id d ≡ false
    → upsert_production_record_and_summary p now d
      ≡ (true, mark_applied p.source.id (increment_daily_summary p now (upserted p now d)))
unfolding upsert_production_record_and_summary
upsert_counted p now d e = rw e refl

pub upserted-IsBalanced :
    (p : Produced) (now : ℕ) (d : Production) (o : Option ProductionRecord)
    → select_one (of_message p.source.id) d.records ≡ o
    → IsBalanced d
    → IsBalanced (upsert_record p now o d)
upserted-IsBalanced p now d none h b = record {
  ids = b.ids;
  unique = upserted_unique p now d none h b.unique;
  balance = rw (upserted-applied p now d none) (b.balance);
}
upserted-IsBalanced p now d (some r) h b = record {
  ids = b.ids;
  unique = upserted_unique p now d (some r) h b.unique;
  balance = rw (upserted-applied p now d (some r)) (b.balance);
}

pub add-records :
    (p : Produced) (now : ℕ) (d : Production) (o : Option DailySummary)
    → (add_to_summary p now o d).records ≡ d.records
add-records p now d none = refl
add-records p now d (some row) = refl

-- the increment and the mark, for an unmarked record of the message
counted-IsBalanced :
    (p : Produced) (now : ℕ) (d : Production) (o : Option DailySummary) (r : ProductionRecord)
    → select_one (same_group p) d.summaries ≡ o
    → select_one (of_message p.source.id) d.records ≡ some r
    → r.summary_applied ≡ false
    → IsBalanced d
    → IsBalanced (mark_applied p.source.id (add_to_summary p now o d))
counted-IsBalanced p now d o r g h n b = record {
  ids = add-ids p now d o b.ids;
  unique = λ i. rw (add-records p now d o) (
      rw (count-keep (of_message i) (of_message p.source.id) applied_record (λ x e. refl) d.records)
        (b.unique i));
  balance = rw (add-total p now d o g b.ids) (
      rw (add-records p now d o)
        (rw (count-mark p.source.id d.records r (b.unique p.source.id) h n) (ap suc b.balance)));
}

-- An upsert keeps the summaries in balance with the records.
pub upsert-IsBalanced :
    (p : Produced) (now : ℕ) (d : Production)
    → IsBalanced d
    → IsBalanced (upsert_production_record_and_summary p now d).1
unfolding increment_daily_summary
upsert-IsBalanced p now d b =
    let existing = select_one (of_message p.source.id) d.records in
    let (r, found, flag) = found_upserted p now d existing refl in
    let balanced = upserted-IsBalanced p now d existing refl b in
    elim (Bool-cases (production_summary_applied p.source.id d)) [
      | inl e ↦ rw (upsert_kept p now d e) balanced
      | inr e ↦ rw (upsert_counted p now d e) (
          counted-IsBalanced p now (upserted p now d)
            (select_one (same_group p) (upserted p now d).summaries) r refl found (flag ∙ e)
            balanced)
    ]
