-- ===== src/Queue/Message.antt =====
-- The rows of `mqtt_messages` and the reads by key: app/database.py.
-- The table is the list of its rows by id, with the id that AUTOINCREMENT gives next.
use blackbear_edge_bridge.Prelude.{
  ℕ, String, Bool, true, false, Option, none, some, List, nat_eq, ◌==◌, select_one, select, take, ℤ,
  if◌then◌else◌,
}

-- VALID_STATUSES
pub data StatusValue : Type 0 where
  new processing completed failed : StatusValue

abbrev pub is_new : StatusValue → Bool
is_new new = true
is_new _ = false

abbrev pub is_processing : StatusValue → Bool
is_processing processing = true
is_processing _ = false

abbrev pub is_completed : StatusValue → Bool
is_completed completed = true
is_completed _ = false

abbrev pub is_failed : StatusValue → Bool
is_failed failed = true
is_failed _ = false

-- The text of a status, read as `status in VALID_STATUSES` reads it.
abbrev pub read_status : String → Option StatusValue
read_status text =
    if text == "NEW"
    then some new
    else if text == "PROCESSING"
    then some processing
    else if text == "COMPLETED"
    then some completed
    else if text == "FAILED"
    then some failed
    else none

pub record SavedMessage : Type 0 where
  pub id : ℕ
  pub message_hash : String
  pub status : StatusValue
  pub inserted : Bool

pub record MessageRecord : Type 0 where
  pub id : ℕ
  pub received_at : ℕ
  pub topic : String
  pub message_type : String
  pub table_no : String
  pub model : String
  pub serial : String
  pub raw_payload : String
  pub message_hash : String
  pub status : StatusValue
  pub retry_count : ℕ
  pub processed_at : Option ℕ
  pub last_error : Option String
  pub odoo_response : Option String
  pub last_attempt_at : Option ℕ
  pub completed_at : Option ℕ
  pub ack : Option String
  pub customer_id : Option ℤ
  pub customer_name : Option String
  pub operator_id : Option ℤ
  pub operator_name : Option String
  pub batch_number : Option String
  pub ack_replay_count : ℕ
  pub last_ack_replayed_at : Option ℕ

pub record Messages : Type 0 where
  pub rows : List MessageRecord
  pub next_id : ℕ

abbrev pub empty : Messages
empty = record { rows = List.[]; next_id = 1 }

-- WHERE id = ?
abbrev pub has_id : ℕ → MessageRecord → Bool
has_id i r = nat_eq r.id i

-- WHERE message_hash = ?
abbrev pub has_hash : String → MessageRecord → Bool
has_hash h r = r.message_hash == h

unfoldable pub get_message_by_id : ℕ → Messages → Option MessageRecord
get_message_by_id i q = select_one (has_id i) q.rows

unfoldable pub get_message_by_hash : String → Messages → Option MessageRecord
get_message_by_hash h q = select_one (has_hash h) q.rows

-- ORDER BY id ASC is the order of the list.
unfoldable pub get_pending_messages : ℕ → Messages → List MessageRecord
get_pending_messages limit q = take limit (select (λ r. is_new r.status) q.rows)
