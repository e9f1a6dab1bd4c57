-- ===== src/Queue/Claim.antt =====
-- `claim_pending_messages` of app/database.py: one BEGIN IMMEDIATE transaction.
use blackbear_edge_bridge.Prelude.{
  ℕ, column, ◌≡◌, true, false, Bool, false, ◌&&◌, ◌||◌, some, List, [], ◌∷◌, ℤ, is_nonpos, pos_part,
  below, nat_eq, select, take, update, if◌then◌else◌,
}
use blackbear_edge_bridge.Time.{format_timestamp}
use blackbear_edge_bridge.Queue.Message.{processing, is_new, is_failed, MessageRecord, Messages}

-- WHERE status = 'NEW' OR (status = 'FAILED' AND retry_count < max_retries)
abbrev pub is_claimable : ℤ → MessageRecord → Bool
is_claimable max_retries r =
    is_new r.status || (is_failed r.status && below r.retry_count max_retries)

-- id IN (…)
abbrev pub id_in : List ℕ → ℕ → Bool
id_in [] i = false
id_in (j ∷ js) i = nat_eq j i || id_in js i

abbrev pub ids : List MessageRecord → List ℕ
ids = column (λ r. r.id)

-- SET status = 'PROCESSING', last_attempt_at = ?
abbrev pub claimed : ℕ → MessageRecord → MessageRecord
claimed at r = record r { status = processing; last_attempt_at = some at }

-- the ids that the first SELECT returns
unfoldable pub claimable_ids : ℕ → ℤ → Messages → List ℕ
claimable_ids n max_retries q = ids (take n (select (is_claimable max_retries) q.rows))

-- UPDATE … WHERE id IN, then SELECT … WHERE id IN ORDER BY id
unfoldable pub claim_ids : ℕ → List ℕ → Messages → List MessageRecord × Messages
claim_ids at [] q = ([], q)
claim_ids at (i ∷ is) q =
    let chosen = λ (r : MessageRecord). id_in (i ∷ is) r.id in
    let rows = update chosen (claimed at) q.rows in (select chosen rows, record q { rows = rows })

unfoldable pub claim_pending_messages : ℤ → ℤ → ℕ → Messages → List MessageRecord × Messages
unfolding claim_ids claimable_ids
claim_pending_messages batch_size max_retries now q =
    if is_nonpos batch_size
    then ([], q)
    else claim_ids (format_timestamp now) (claimable_ids (pos_part batch_size) max_retries q) q

module _ (batch_size max_retries : ℤ) (now : ℕ) (q : Messages) where
  pub claim_nothing :
      is_nonpos batch_size ≡ true → claim_pending_messages batch_size max_retries now q ≡ ([], q)
  unfolding claim_pending_messages
  claim_nothing e = rw e

  pub claim_some :
      is_nonpos batch_size ≡ false
      → claim_pending_messages batch_size max_retries now q
        ≡ claim_ids (format_timestamp now) (claimable_ids (pos_part batch_size) max_retries q) q
  unfolding claim_pending_messages
  claim_some e = rw e
