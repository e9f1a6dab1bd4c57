-- ===== src/Dashboard/Query.antt =====
-- `_dashboard_filters`, `_bounded_limit` and the three dashboard queries of app/database.py. How a
-- stored timestamp and a date are written is a parameter, since the filters compare texts.
use Prim.Native.Char.{code}
use Prim.Native.String.{[], ◌∷◌}
use blackbear_edge_bridge.Prelude.{
  ℕ, String, Bool, true, false, ◌&&◌, ◌||◌, not, Option, none, some, List, ℤ, pos_part, min, max,
  int_eq, nat_eq, ltb, ◌==◌, select, take, if◌then◌else◌,
}
use blackbear_edge_bridge.Production.Tables.{ProductionRecord, DailySummary, Production}
use blackbear_edge_bridge.Production.Balance.{total}

-- the texts of a timestamp and of a date
pub record Dates : Type 0 where
  pub timestamp_text : ℕ → String
  pub date_text : ℕ → String

pub record Filters : Type 0 where
  pub date_from : Option String
  pub date_to : Option String
  pub table_no : Option String
  pub model : Option String
  pub customer_id : Option ℤ
  pub batch_number : Option String
  pub operator_id : Option ℤ

abbrev pub no_filters : Filters
no_filters = record {
  date_from = none;
  date_to = none;
  table_no = none;
  model = none;
  customer_id = none;
  batch_number = none;
  operator_id = none;
}

-- the columns that the filters read
pub record Columns : Type 0 where
  pub date : String
  pub table_no : String
  pub model : String
  pub customer_id : Option ℤ
  pub batch_number : Option String
  pub operator_id : Option ℤ

-- `a <= b` of two texts in SQLite, by their code points
unfoldable pub text_le : String → String → Bool
text_le [] t = true
text_le (c ∷ s) [] = false
text_le (c ∷ s) (d ∷ t) =
    if ltb (code c) (code d) then true else if nat_eq (code c) (code d) then text_le s t else false

abbrev pub text_lt : String → String → Bool
text_lt a b = not (text_le b a)

-- `if date_from:` and `if date_to:`
abbrev pub from_date : Option String → String → Bool
from_date none date = true
from_date (some bound) date = if bound == "" then true else text_le bound date

abbrev pub to_date : Option String → String → Bool
to_date none date = true
to_date (some bound) date = if bound == "" then true else text_le date bound

-- `column = ?`, which NULL does not satisfy; `is not None` of the value
abbrev pub equals_text : Option String → Option String → Bool
equals_text none column = true
equals_text (some value) none = false
equals_text (some value) (some column) = column == value

abbrev pub equals_int : Option ℤ → Option ℤ → Bool
equals_int none column = true
equals_int (some value) none = false
equals_int (some value) (some column) = int_eq column value

-- the WHERE clause
unfoldable pub dashboard_filters : Filters → Columns → Bool
dashboard_filters f c =
    from_date f.date_from c.date
    && to_date f.date_to c.date
    && equals_text f.table_no (some c.table_no)
    && equals_text f.model (some c.model)
    && equals_int f.customer_id c.customer_id
    && equals_text f.batch_number c.batch_number
    && equals_int f.operator_id c.operator_id

-- min(max(limit, 1), 500)
unfoldable pub bounded_limit : ℤ → ℕ
bounded_limit limit = min (max (pos_part limit) 1) 500

-- ORDER BY, with rows that compare alike in the order of the table
module _ {ℓ} {A : Type ℓ} (before : A → A → Bool) where
  abbrev pub insert_row : A → List A → List A
  insert_row x List.[] = List.◌∷◌ x List.[]
  insert_row x (List.◌∷◌ y rows) =
      if before y x then List.◌∷◌ y (insert_row x rows) else List.◌∷◌ x (List.◌∷◌ y rows)

  unfoldable pub order_by : List A → List A
  order_by List.[] = List.[]
  order_by (List.◌∷◌ x rows) = insert_row x (order_by rows)

-- completed_at DESC, id DESC
abbrev pub newer : ProductionRecord → ProductionRecord → Bool
newer r s =
    ltb s.completed_at r.completed_at || (nat_eq s.completed_at r.completed_at && ltb s.id r.id)

-- production_date DESC, table_no, model
abbrev pub earlier_summary : DailySummary → DailySummary → Bool
earlier_summary a b =
    ltb b.production_date a.production_date
    || (nat_eq b.production_date a.production_date
        && (text_lt a.table_no b.table_no || (a.table_no == b.table_no && text_lt a.model b.model)))

-- the row of totals
pub record SummaryTotals : Type 0 where
  pub production_count : ℕ
  pub first_completed_at : Option ℕ
  pub last_completed_at : Option ℕ
  pub first_production_date : Option ℕ
  pub last_production_date : Option ℕ

-- MIN and MAX
abbrev pub least_with : ℕ → Option ℕ → ℕ
least_with n none = n
least_with n (some m) = min n m

abbrev pub greatest_with : ℕ → Option ℕ → ℕ
greatest_with n none = n
greatest_with n (some m) = max n m

module _ {ℓ} {A : Type ℓ} (value : A → ℕ) where
  abbrev pub least : List A → Option ℕ
  least List.[] = none
  least (List.◌∷◌ x rows) = some (least_with (value x) (least rows))

  abbrev pub greatest : List A → Option ℕ
  greatest List.[] = none
  greatest (List.◌∷◌ x rows) = some (greatest_with (value x) (greatest rows))

module _ (dates : Dates) (f : Filters) where
  -- date_column="completed_at"
  abbrev pub record_columns : ProductionRecord → Columns
  record_columns r = record {
    date = dates.timestamp_text r.completed_at;
    table_no = r.table_no;
    model = r.model;
    customer_id = r.customer_id;
    batch_number = r.batch_number;
    operator_id = r.operator_id;
  }

  -- date_column="production_date"
  abbrev pub summary_columns : DailySummary → Columns
  summary_columns s = record {
    date = dates.date_text s.production_date;
    table_no = s.table_no;
    model = s.model;
    customer_id = s.customer_id;
    batch_number = s.batch_number;
    operator_id = s.operator_id;
  }

  abbrev pub record_matches : ProductionRecord → Bool
  record_matches r = dashboard_filters f (record_columns r)

  abbrev pub summary_matches : DailySummary → Bool
  summary_matches s = dashboard_filters f (summary_columns s)

  unfoldable pub query_recent_production_records : ℤ → Production → List ProductionRecord
  query_recent_production_records limit d =
      take (bounded_limit limit) (order_by newer (select record_matches d.records))

  unfoldable pub query_daily_production_summary : ℤ → Production → List DailySummary
  query_daily_production_summary limit d =
      take (bounded_limit limit) (order_by earlier_summary (select summary_matches d.summaries))

  unfoldable pub query_production_summary_totals : Production → SummaryTotals
  query_production_summary_totals d =
      let rows = select summary_matches d.summaries in
      record {
        production_count = total rows;
        first_completed_at = least (λ (s : DailySummary). s.first_completed_at) rows;
        last_completed_at = greatest (λ (s : DailySummary). s.last_completed_at) rows;
        first_production_date = least (λ (s : DailySummary). s.production_date) rows;
        last_production_date = greatest (λ (s : DailySummary). s.production_date) rows;
      }
