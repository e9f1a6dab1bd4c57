-- ===== src/Production/Balance.antt =====
-- The daily summaries against the records: what an upsert does to the counts.
use blackbear_edge_bridge.Prelude.{
  ℕ, suc, ◌+◌, ◌≤◌, ◌<◌, ◌≡◌, refl, ap, Bool, true, false, Option, none, some, List, [], ◌∷◌, ◌++◌,
  nat_eq, arith, Bool-cases, inl, inr, select_one, update, count, column, All, Ascending,
  Ascending-append, Ascending-above, column-append, column-update, select_one-head, update_none,
}
use blackbear_edge_bridge.Production.Tables.{ProductionRecord, DailySummary, Production}
use blackbear_edge_bridge.Production.Upsert.{
  Produced, same_group, new_summary, incremented_from, summary_id, add_to_summary, of_message,
  applied_record,
}

-- the number of pieces that the summaries count
abbrev pub total : List DailySummary → ℕ
total [] = 0
total (s ∷ ss) = s.production_count + total ss

abbrev pub applied : ProductionRecord → Bool
applied r = r.summary_applied

abbrev pub summary_key : DailySummary → ℕ
summary_key s = s.id

-- Every summary has an id of its own and every message has at most one record, and the summaries count
-- exactly the records that are marked as summarized.
pub record IsBalanced (d : Production) : Type 0 where
  pub ids : Ascending 1 (column summary_key d.summaries) d.next_summary_id
  pub unique : (i : ℕ) → count (of_message i) d.records ≤ 1
  pub balance : total d.summaries ≡ count applied d.records

none_above :
    (i lo : ℕ) (xs : List DailySummary)
    → i < lo
    → All (λ j. lo ≤ j) (column summary_key xs)
    → count (summary_id i) xs ≡ 0
none_above i lo [] h a = refl
none_above i lo (x ∷ xs) h a = ground (arith, none_above i lo xs h a.1, a.0)

one_id :
    (i lo hi : ℕ) (xs : List DailySummary)
    → Ascending lo (column summary_key xs) hi
    → count (summary_id i) xs ≤ 1
one_id i lo hi [] a = omega arith
one_id i lo hi (x ∷ xs) a = elim (Bool-cases (nat_eq x.id i)) [
  | inl e ↦
      let above = Ascending-above (suc x.id) (column summary_key xs) hi a.1 in
      ground (arith, none_above i (suc x.id) xs (ground (arith, e)) above)
  | inr e ↦ ground (arith, one_id i (suc x.id) hi xs a.1, e)
]

total-append : (xs ys : List DailySummary) → total (xs ++ ys) ≡ total xs + total ys
total-append [] ys = omega arith
total-append (x ∷ xs) ys = omega (arith, total-append xs ys)

total-update :
    (row : DailySummary) (p : Produced) (now i : ℕ) (xs : List DailySummary)
    → total (update (summary_id i) (incremented_from row p now) xs)
      ≡ total xs + count (summary_id i) xs
total-update row p now i [] = omega arith
total-update row p now i (x ∷ xs) = ground (arith, total-update row p now i xs)

found_id :
    (q : DailySummary → Bool) (xs : List DailySummary) (row : DailySummary)
    → select_one q xs ≡ some row
    → 0 < count (summary_id row.id) xs
found_id q [] row h = ground arith
found_id q (x ∷ xs) row h = elim (Bool-cases (q x)) [
  | inl t ↦ ground (arith, ap summary_key (select_one-head q x xs row t h))
  | inr f ↦ ground (arith, found_id q xs row (rw f at h))
]

pub add-total :
    (p : Produced) (now : ℕ) (d : Production) (o : Option DailySummary)
    → select_one (same_group p) d.summaries ≡ o
    → Ascending 1 (column summary_key d.summaries) d.next_summary_id
    → total (add_to_summary p now o d).summaries ≡ suc (total d.summaries)
add-total p now d none h a =
    ground (arith, total-append d.summaries (new_summary d.next_summary_id p now ∷ []))
add-total p now d (some row) h a =
    let one = one_id row.id 1 d.next_summary_id d.summaries a in
    let found = found_id (same_group p) d.summaries row h in
    ground (arith, total-update row p now row.id d.summaries, one, found)

pub add-ids :
    (p : Produced) (now : ℕ) (d : Production) (o : Option DailySummary)
    → Ascending 1 (column summary_key d.summaries) d.next_summary_id
    → Ascending 1
        (column summary_key (add_to_summary p now o d).summaries)
        (add_to_summary p now o d).next_summary_id
add-ids p now d none a =
    let fresh = new_summary d.next_summary_id p now in
    rw (column-append summary_key d.summaries (fresh ∷ []))
      (Ascending-append 1 (column summary_key d.summaries) d.next_summary_id a)
add-ids p now d (some row) a =
    rw
      (column-update summary_key (summary_id row.id) (incremented_from row p now) (λ x. refl)
        d.summaries)
      a

-- what marking a record does to the number of marked records
pub count-mark :
    (i : ℕ) (xs : List ProductionRecord) (r : ProductionRecord)
    → count (of_message i) xs ≤ 1
    → select_one (of_message i) xs ≡ some r
    → r.summary_applied ≡ false
    → count applied (update (of_message i) applied_record xs) ≡ suc (count applied xs)
count-mark i [] r u h n = ground arith
count-mark i (x ∷ xs) r u h n = elim (Bool-cases (of_message i x)) [
  | inl t ↦
      let same = ap applied (select_one-head (of_message i) x xs r t h) in
      let none_left : count (of_message i) xs ≡ 0 = ground (arith, u, t) in
      rw (update_none (of_message i) applied_record xs none_left) (rw t (ground (arith, same, n)))
  | inr f ↦ ground (arith, count-mark i xs r (ground (arith, u, f)) (rw f at h) n, f)
]

pub count-keep :
    (q p : ProductionRecord → Bool) (f : ProductionRecord → ProductionRecord)
    → ((r : ProductionRecord) → p r ≡ true → q (f r) ≡ q r)
    → (xs : List ProductionRecord) → count q (update p f xs) ≡ count q xs
count-keep q p f k [] = refl
count-keep q p f k (x ∷ xs) = elim (Bool-cases (p x)) [
  | inl t ↦ rw t (ground (arith, k x t, count-keep q p f k xs))
  | inr e ↦ rw e (ground (arith, count-keep q p f k xs))
]
