-- ===== src/Queue/Save.antt =====
-- `save_message`, `message_exists` and the message hash: app/database.py.
-- SHA-256 is a parameter: the code relies only on its being a function of the text.
use Prim.Native.String.{◌++◌ as text_append}
use mathlib.Core.List.{◌++◌}
use blackbear_edge_bridge.Prelude.{
  ℕ, suc, String, ◌≡◌, arith, Bool, true, false, Option, none, some, [], ◌∷◌, if◌then◌else◌,
  select_one,
}
use blackbear_edge_bridge.Errors.{Result, ok, raise, integrity_error, transaction}
use blackbear_edge_bridge.Time.{format_timestamp}
use blackbear_edge_bridge.Queue.Message.{new, SavedMessage, MessageRecord, Messages, has_hash}

-- What `save_message` is given.
pub record Incoming : Type 0 where
  pub topic : String
  pub raw_payload : String
  pub message_type : String
  pub table_no : String
  pub model : String
  pub serial : String

module _ (sha256 : String → String) where
  unfoldable pub generate_message_hash : String → String → String
  generate_message_hash topic raw_payload = sha256 (text_append topic raw_payload)

abbrev is_some : Option MessageRecord → Bool
is_some none = false
is_some (some _) = true

unfoldable pub message_exists : String → Messages → Bool
message_exists h q = is_some (select_one (has_hash h) q.rows)

abbrev pub duplicate_of : MessageRecord → SavedMessage
duplicate_of r = record {
  id = r.id;
  message_hash = r.message_hash;
  status = r.status;
  inserted = false;
}

-- `_get_saved_message_by_hash`
unfoldable pub get_saved_message_by_hash : String → Messages → Option SavedMessage
get_saved_message_by_hash h q = elim (select_one (has_hash h) q.rows) [
  | none ↦ none
  | some r ↦ some (duplicate_of r)
]

-- The row that INSERT writes, the defaults of its other columns included.
abbrev pub new_row : ℕ → String → ℕ → Incoming → MessageRecord
new_row i h at m = record {
  id = i;
  received_at = at;
  topic = m.topic;
  message_type = m.message_type;
  table_no = m.table_no;
  model = m.model;
  serial = m.serial;
  raw_payload = m.raw_payload;
  message_hash = h;
  status = new;
  retry_count = 0;
  processed_at = none;
  last_error = none;
  odoo_response = none;
  last_attempt_at = none;
  completed_at = none;
  ack = none;
  customer_id = none;
  customer_name = none;
  operator_id = none;
  operator_name = none;
  batch_number = none;
  ack_replay_count = 0;
  last_ack_replayed_at = none;
}

-- INSERT INTO mqtt_messages, under the constraint UNIQUE (message_hash)
unfoldable pub insert_message : String → ℕ → Incoming → Messages → Result ℕ × Messages
unfolding message_exists
insert_message h at m q = if message_exists h q then (raise integrity_error, q) else (
  ok q.next_id,
  record { rows = q.rows ++ new_row q.next_id h at m ∷ []; next_id = suc q.next_id },
)

-- `except sqlite3.IntegrityError`
abbrev after_insert : String → Result ℕ × Messages → Result SavedMessage × Messages
after_insert h (ok i, q) =
    (ok (record { id = i; message_hash = h; status = new; inserted = true }), q)
after_insert h (raise e, q) = elim (get_saved_message_by_hash h q) [
  | some d ↦ (ok d, q)
  | none ↦ (raise e, q)
]

abbrev save_body : String → ℕ → Incoming → Messages → Result SavedMessage × Messages
save_body h at m q = elim (get_saved_message_by_hash h q) [
  | some existing ↦ (ok existing, q)
  | none ↦ after_insert h (insert_message h at m q)
]

module _ (sha256 : String → String) where
  -- The default of `received_at` is the time of the call, `now`.
  unfoldable pub save_message : ℕ → Incoming → Messages → Result SavedMessage × Messages
  unfolding generate_message_hash insert_message get_saved_message_by_hash
  save_message now m =
      transaction
        (save_body (generate_message_hash sha256 m.topic m.raw_payload) (format_timestamp now) m)

  -- A message whose hash is stored is a duplicate, and nothing is written.
  pub save_duplicate :
      (now : ℕ) (m : Incoming) (q : Messages) (r : MessageRecord)
      → select_one (has_hash (generate_message_hash sha256 m.topic m.raw_payload)) q.rows ≡ some r
      → save_message now m q ≡ (ok (duplicate_of r), q)
  unfolding save_message
  save_duplicate now m q r e = ground (arith, e)

  -- Any other message is appended with the next id and status NEW.
  pub save_fresh :
      (now : ℕ) (m : Incoming) (q : Messages)
      → select_one (has_hash (generate_message_hash sha256 m.topic m.raw_payload)) q.rows ≡ none
      → let h = generate_message_hash sha256 m.topic m.raw_payload in
        save_message now m q ≡ (
          ok (record { id = q.next_id; message_hash = h; status = new; inserted = true }),
          record {
            rows = q.rows ++ new_row q.next_id h (format_timestamp now) m ∷ [];
            next_id = suc q.next_id;
          },
        )
  unfolding save_message
  save_fresh now m q e = ground (arith, e)
