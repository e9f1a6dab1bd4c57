-- ===== src/Queue/Mark.antt =====
-- `update_status`, `mark_failed`, `reset_stale_processing` and `get_queue_counts` of
-- app/database.py.
use blackbear_edge_bridge.Prelude.{
  ℕ, ◌≡◌, ◌+◌, max, String, Bool, true, false, not, ◌&&◌, ◌||◌, Option, none, some, List, ℤ,
  pos_part, nat_eq, ltb, count, update, if◌then◌else◌,
}
use blackbear_edge_bridge.Errors.{
  Result, ok, raise, unsupported_status, message_not_found, transaction,
}
use blackbear_edge_bridge.Time.{format_timestamp}
use blackbear_edge_bridge.Queue.Message.{
  StatusValue, new, processing, completed, failed, is_new, is_processing, is_completed, is_failed,
  read_status, MessageRecord, Messages, has_id,
}
use blackbear_edge_bridge.Queue.Claim.{id_in}

-- UPDATE … WHERE id = ?, then `if cursor.rowcount != 1: raise ValueError`
unfoldable pub update_one :
    ℕ → (MessageRecord → MessageRecord) → Messages → Result (Unit {0}) × Messages
update_one i set q =
    let after = record q { rows = update (has_id i) set q.rows } in
    if nat_eq (count (has_id i) q.rows) 1
    then (ok tt, after)
    else (raise (message_not_found i), after)

module _ (i : ℕ) (set : MessageRecord → MessageRecord) (q : Messages) where
  pub update_one_found :
      nat_eq (count (has_id i) q.rows) 1 ≡ true
      → transaction (update_one i set) q ≡ (ok tt, record q { rows = update (has_id i) set q.rows })
  unfolding update_one
  update_one_found e = rw e

  pub update_one_missing :
      nat_eq (count (has_id i) q.rows) 1 ≡ false
      → transaction (update_one i set) q ≡ (raise (message_not_found i), q)
  unfolding update_one
  update_one_missing e = rw e

abbrev pub ends : StatusValue → Bool
ends s = is_completed s || is_failed s

-- The time that `update_status` writes: given, or the time of the call for an end status.
abbrev pub processed_time : StatusValue → Option ℕ → ℕ → Option ℕ
processed_time s (some at) now = some (format_timestamp at)
processed_time s none now = if ends s then some (format_timestamp now) else none

abbrev pub with_status :
    ℕ → String → Option StatusValue → Option ℕ → ℕ → Messages → Result (Unit {0}) × Messages
with_status i text none processed_at now q = (raise (unsupported_status text), q)
with_status i text (some s) processed_at now q =
    transaction
      (update_one i
        (λ r. record r { status = s; processed_at = processed_time s processed_at now }))
      q

unfoldable pub update_status : ℕ → String → Option ℕ → ℕ → Messages → Result (Unit {0}) × Messages
unfolding update_one
update_status i text processed_at now = with_status i text (read_status text) processed_at now

-- `max_retries if max_retries is not None else 10`
abbrev pub final_retry_count : Option ℤ → ℕ
final_retry_count none = 10
final_retry_count (some n) = pos_part n

-- `retry_count + 1`, or `MAX(retry_count + 1, ?)` when the failure is final
abbrev pub next_retry_count : Bool → Option ℤ → ℕ → ℕ
next_retry_count true max_retries n = n + 1
next_retry_count false max_retries n = max (n + 1) (final_retry_count max_retries)

-- COALESCE(?, column)
abbrev pub coalesce {ℓ} : {A : Type ℓ} → Option A → Option A → Option A
coalesce none old = old
coalesce (some a) old = some a

abbrev pub failed_row : String → ℕ → Option String → Bool → Option ℤ → MessageRecord → MessageRecord
failed_row error at response retryable max_retries r = record r {
  status = failed;
  retry_count = next_retry_count retryable max_retries r.retry_count;
  last_error = some error;
  last_attempt_at = some at;
  odoo_response = coalesce response r.odoo_response;
}

unfoldable pub mark_failed :
    ℕ → String → ℕ → Option String → Bool → Option ℤ → Messages → Result (Unit {0}) × Messages
unfolding update_one
mark_failed i error at response retryable max_retries =
    transaction (update_one i (failed_row error at response retryable max_retries))

-- The values of the UPDATE of `mark_completed`.
pub record Completion : Type 0 where
  pub completed_at : ℕ
  pub odoo_response : String
  pub ack : Option String
  pub customer_id : Option ℤ
  pub customer_name : Option String
  pub operator_id : Option ℤ
  pub operator_name : Option String
  pub number_of_operators : Option ℤ
  pub batch_number : Option String

abbrev pub completed_row : Completion → MessageRecord → MessageRecord
completed_row c r = record r {
  status = completed;
  processed_at = some c.completed_at;
  completed_at = some c.completed_at;
  last_error = none;
  odoo_response = some c.odoo_response;
  ack = c.ack;
  customer_id = c.customer_id;
  customer_name = c.customer_name;
  operator_id = c.operator_id;
  operator_name = c.operator_name;
  batch_number = c.batch_number;
}

-- The UPDATE of `mark_completed` and its row count.
unfoldable pub complete_message : ℕ → Completion → Messages → Result (Unit {0}) × Messages
unfolding update_one
complete_message i c = update_one i (completed_row c)

-- last_attempt_at IS NULL OR last_attempt_at < ?
abbrev pub attempted_before : ℕ → Option ℕ → Bool
attempted_before t none = true
attempted_before t (some at) = ltb at t

abbrev pub is_stale : ℕ → List ℕ → MessageRecord → Bool
is_stale stale_before excluded r =
    is_processing r.status
    && attempted_before stale_before r.last_attempt_at
    && not (id_in excluded r.id)

abbrev pub recovered : ℕ → MessageRecord → MessageRecord
recovered at r = record r {
  status = failed;
  retry_count = r.retry_count + 1;
  last_error = some "Recovered stale PROCESSING message after timeout";
  last_attempt_at = some at;
}

-- The number of rows recovered, and the table after.
unfoldable pub reset_stale_processing : ℕ → List ℕ → ℕ → Messages → ℕ × Messages
reset_stale_processing stale_before excluded now q =
    let stale = is_stale stale_before excluded in
    (count stale q.rows, record q { rows = update stale (recovered (format_timestamp now)) q.rows })

-- `get_queue_counts`: COUNT(*) … GROUP BY status, 0 for a status with no row
unfoldable pub get_queue_counts : Messages → StatusValue → ℕ
get_queue_counts q new = count (λ r. is_new r.status) q.rows
get_queue_counts q processing = count (λ r. is_processing r.status) q.rows
get_queue_counts q completed = count (λ r. is_completed r.status) q.rows
get_queue_counts q failed = count (λ r. is_failed r.status) q.rows
