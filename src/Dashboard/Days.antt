-- ===== src/Dashboard/Days.antt =====
-- A last day given as a date, in the queries of app/database.py: the daily summaries of that day match,
-- the records of that day do not.
use Prim.Native.Char.{Char}
use Prim.Native.String.{[], ◌∷◌, ◌++◌}
use text.Mathlib.TextLemmas.{nil-append, cons-append}
use blackbear_edge_bridge.Prelude.{◌≡◌, ◌∙◌, refl, sym, ap, String, true, false, some, arith, ◌==◌}
use blackbear_edge_bridge.Time.{production_date}
use blackbear_edge_bridge.Production.Tables.{ProductionRecord, DailySummary}
use blackbear_edge_bridge.Dashboard.Query.{
  Dates, Filters, no_filters, text_le, dashboard_filters, record_matches, summary_matches,
}

text_le_refl : (s : String) → text_le s s ≡ true
unfolding text_le
text_le_refl [] = refl
text_le_refl (c ∷ s) = ground (arith, text_le_refl s)

-- a text that continues another is not before it
longer_not_le : (s : String) (c : Char) (t : String) → text_le (s ++ (c ∷ t)) s ≡ false
unfolding text_le
longer_not_le [] c t = rw nil-append refl
longer_not_le (d ∷ s) c t = rw cons-append (ground (arith, longer_not_le s c t))

-- the only filter is a last date
abbrev pub up_to : String → Filters
up_to day = record no_filters { date_to = some day }

-- When the text of a timestamp is that of its date with more after it, a dashboard that is asked for
-- production up to a day, by its date, counts the daily summaries of that day and leaves out every record
-- that was completed on it.
pub last_day_is_cut :
    (dates : Dates) (r : ProductionRecord) (s : DailySummary) (c : Char) (rest : String)
    → s.production_date ≡ production_date r.completed_at
    → (dates.date_text s.production_date == "") ≡ false
    → dates.timestamp_text r.completed_at
      ≡ dates.date_text (production_date r.completed_at) ++ (c ∷ rest)
    → (summary_matches dates (up_to (dates.date_text s.production_date)) s ≡ true)
      × (record_matches dates (up_to (dates.date_text s.production_date)) r ≡ false)
unfolding dashboard_filters
last_day_is_cut dates r s c rest same given text =
    let day = dates.date_text s.production_date in
    let text_on_day : dates.timestamp_text r.completed_at ≡ day ++ (c ∷ rest) =
      text ∙ ap (λ n. dates.date_text n ++ (c ∷ rest)) (sym same) in
    (
      rw given (rw (text_le_refl day) refl),
      rw given (rw text_on_day (rw (longer_not_le day c rest) refl)),
    )
