-- ===== src/Dashboard/Totals.antt =====
-- The totals of the dashboard (app/database.py) against the daily query and the production records.
use blackbear_edge_bridge.Prelude.{
  ℕ, zero, suc, ◌+◌, ◌≤◌, ◌≡◌, refl, sym, ap, List, [], ◌∷◌, ℤ, arith, select, take, count, length,
  length-select,
}
use mathlib.Core.Path.{subst}
use blackbear_edge_bridge.Json.{Codec}
use blackbear_edge_bridge.Production.Tables.{DailySummary, Production, no_production}
use blackbear_edge_bridge.Production.Complete.{Database}
use blackbear_edge_bridge.Production.Balance.{IsBalanced, total, applied}
use blackbear_edge_bridge.Production.Once.{ProductionCall, calls, calls-IsBalanced}
use blackbear_edge_bridge.Dashboard.Query.{
  Dates, Filters, no_filters, dashboard_filters, bounded_limit, insert_row, order_by,
  earlier_summary, summary_matches, query_daily_production_summary, query_production_summary_totals,
}
use blackbear_edge_bridge.Dashboard.Newest.{length-order_by}

total-insert_row :
    (s : DailySummary) (ss : List DailySummary)
    → total (insert_row earlier_summary s ss) ≡ s.production_count + total ss
total-insert_row s [] = refl
total-insert_row s (x ∷ ss) = ground (arith, total-insert_row s ss)

total-order_by : (ss : List DailySummary) → total (order_by earlier_summary ss) ≡ total ss
unfolding order_by
total-order_by [] = refl
total-order_by (s ∷ ss) =
    omega (arith, total-insert_row s (order_by earlier_summary ss), total-order_by ss)

take_all {ℓ} : {A : Type ℓ} (n : ℕ) (xs : List A) → length xs ≤ n → take n xs ≡ xs
take_all zero [] h = refl
take_all zero (x ∷ xs) h = absurd (omega (arith, h))
take_all (suc n) [] h = refl
take_all (suc n) (x ∷ xs) h = ap (λ t. x ∷ t) (take_all n xs (omega (arith, h)))

-- The count of the totals is the sum of the counts of the daily query with the same filters, when its
-- limit does not cut it off.
pub totals-eq-daily :
    (dates : Dates) (f : Filters) (limit : ℤ) (d : Production)
    → count (summary_matches dates f) d.summaries ≤ bounded_limit limit
    → (query_production_summary_totals dates f d).production_count
      ≡ total (query_daily_production_summary dates f limit d)
unfolding query_production_summary_totals query_daily_production_summary
totals-eq-daily dates f limit d h =
    let chosen = select (summary_matches dates f) d.summaries in
    let sorted = order_by earlier_summary chosen in
    rw
      (take_all (bounded_limit limit) sorted (
        omega (
          arith,
          length-order_by earlier_summary chosen,
          length-select (summary_matches dates f) d.summaries,
        )))
      (sym (total-order_by chosen))

all_match :
    (dates : Dates) (ss : List DailySummary) → select (summary_matches dates no_filters) ss ≡ ss
unfolding dashboard_filters
all_match dates [] = refl
all_match dates (s ∷ ss) = ap (λ t. s ∷ t) (all_match dates ss)

-- After any completions and reconciliations of an empty production database, the dashboard's total with
-- no filter is the number of production records that are marked as summarized.
pub total_counts_records :
    (dates : Dates) (codec : Codec) (os : List ProductionCall) (db : Database)
    → db.production ≡ no_production
    → (query_production_summary_totals dates no_filters
        (calls codec os db).production).production_count
      ≡ count applied (calls codec os db).production.records
unfolding query_production_summary_totals
total_counts_records dates codec os db e =
    let fresh : IsBalanced no_production = record {
      ids = omega arith;
      unique = λ i. omega arith;
      balance = refl;
    } in
    let b = calls-IsBalanced codec os db (subst IsBalanced (sym e) fresh) in
    rw (all_match dates (calls codec os db).production.summaries) b.balance
