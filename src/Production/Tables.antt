-- ===== src/Production/Tables.antt =====
-- The rows of `production_records` and `daily_production_summary`, and the metadata of a response:
-- app/database.py. A table is the list of its rows by id, with the id that AUTOINCREMENT gives next.
use blackbear_edge_bridge.Prelude.{
  ℕ, String, Bool, Option, none, some, List, ℤ, negsuc, ◌==◌, if◌then◌else◌,
}
use blackbear_edge_bridge.Errors.{Checked, accept}
use blackbear_edge_bridge.Queue.Message.{StatusValue}
use blackbear_edge_bridge.Json.{Json, int, str, obj, Fields, get, Codec}

pub record ProductionRecord : Type 0 where
  pub id : ℕ
  pub mqtt_message_id : ℕ
  pub completed_at : ℕ
  pub production_date : ℕ
  pub message_type : String
  pub machine_id : String
  pub table_no : String
  pub model : String
  pub serial : String
  pub ack : String
  pub customer_id : Option ℤ
  pub customer_name : Option String
  pub operator_id : Option ℤ
  pub operator_name : Option String
  pub number_of_operators : Option ℤ
  pub batch_number : Option String
  pub status : StatusValue
  pub raw_odoo_response : String
  pub created_at : ℕ
  pub summary_applied : Bool

pub record DailySummary : Type 0 where
  pub id : ℕ
  pub production_date : ℕ
  pub machine_id : String
  pub table_no : String
  pub model : String
  pub customer_id : Option ℤ
  pub customer_name : Option String
  pub batch_number : Option String
  pub operator_id : Option ℤ
  pub operator_name : Option String
  pub number_of_operators : Option ℤ
  pub production_count : ℕ
  pub first_ack : String
  pub last_ack : String
  pub first_completed_at : ℕ
  pub last_completed_at : ℕ
  pub created_at : ℕ
  pub updated_at : ℕ

pub record Production : Type 0 where
  pub records : List ProductionRecord
  pub next_record_id : ℕ
  pub summaries : List DailySummary
  pub next_summary_id : ℕ

abbrev pub no_production : Production
no_production = record {
  records = List.[];
  next_record_id = 1;
  summaries = List.[];
  next_summary_id = 1;
}

-- SUMMARY_INT_SENTINEL, SUMMARY_TEXT_SENTINEL
abbrev pub or_int : Option ℤ → ℤ
or_int none = negsuc 0
or_int (some n) = n

abbrev pub or_text : Option String → String
or_text none = ""
or_text (some s) = s

-- The metadata that a response carries.
pub record Metadata : Type 0 where
  pub customer_id : Option ℤ
  pub customer_name : Option String
  pub operator_id : Option ℤ
  pub operator_name : Option String
  pub number_of_operators : Option ℤ
  pub batch_number : Option String

abbrev pub no_metadata : Metadata
no_metadata = record {
  customer_id = none;
  customer_name = none;
  operator_id = none;
  operator_name = none;
  number_of_operators = none;
  batch_number = none;
}

-- `_metadata_int`, of `result.get(...)`; a bool is not an int
abbrev pub metadata_int : Option Json → Option ℤ
metadata_int (some (int n)) = some n
metadata_int _ = none

-- `_metadata_str`
abbrev pub metadata_str : Option Json → Option String
metadata_str (some (str s)) = if s == "" then none else some s
metadata_str _ = none

abbrev pub metadata_of : Fields → Metadata
metadata_of result = record {
  customer_id = metadata_int (get "customer_id" result);
  customer_name = metadata_str (get "customer_name" result);
  operator_id = metadata_int (get "operator_id" result);
  operator_name = metadata_str (get "operator_name" result);
  number_of_operators = metadata_int (get "number_of_operators" result);
  batch_number = metadata_str (get "batch_number" result);
}

abbrev pub result_metadata : Option Json → Metadata
result_metadata (some (obj result)) = metadata_of result
result_metadata _ = no_metadata

abbrev parsed_metadata : Checked String Json → Metadata
parsed_metadata (accept (obj fields)) = result_metadata (get "result" fields)
parsed_metadata _ = no_metadata

-- `_production_metadata_from_response`. Its integers are those that SQLite takes, as the 32-bit integers of
-- XML-RPC are.
unfoldable pub production_metadata_from_response : Codec → String → Metadata
production_metadata_from_response codec odoo_response = parsed_metadata (codec.loads odoo_response)
