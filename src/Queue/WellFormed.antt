-- ===== src/Queue/WellFormed.antt =====
-- The invariant of the table `mqtt_messages`: ids increase along it and stay below the next id, and
-- no two rows have one hash.
use blackbear_edge_bridge.Prelude.{
  ℕ, suc, String, ◌≡◌, ◌≢◌, refl, Bool, Option, none, some, List, [], ◌∷◌, ◌++◌, ℤ, pos_part,
  nat_eq, false, arith, All, column, column-update, column-append, update, select_one, count,
  eq_iff, Ascending, Ascending-append, Distinct, inl, inr, Bool-cases, Option-cases, is_nonpos,
}
use blackbear_edge_bridge.Errors.{transaction}
use blackbear_edge_bridge.Time.{format_timestamp}
use blackbear_edge_bridge.Queue.Message.{
  StatusValue, MessageRecord, Messages, empty, has_id, has_hash, read_status,
}
use blackbear_edge_bridge.Queue.Save.{
  Incoming, generate_message_hash, new_row, save_message, save_fresh, save_duplicate,
}
use blackbear_edge_bridge.Queue.Claim.{
  ids, id_in, claimed, claim_ids, claimable_ids, claim_pending_messages, claim_nothing, claim_some,
}
use blackbear_edge_bridge.Queue.Mark.{
  update_one, update_one_found, update_one_missing, with_status, update_status, mark_failed,
  failed_row, reset_stale_processing,
}
use blackbear_edge_bridge.Queue.Replay.{
  decide_replay, write_replay, AckReplayAttempt, record_ack_replay_attempt, replay_row,
}

abbrev pub hashes : List MessageRecord → List String
hashes = column (λ r. r.message_hash)

pub record IsValid (q : Messages) : Type 0 where
  pub ordered : Ascending 1 (ids q.rows) q.next_id
  pub distinct : Distinct (hashes q.rows)

pub IsValid-empty : IsValid empty
IsValid-empty = record { ordered = omega arith; distinct = tt }

-- an update that keeps ids and hashes keeps the invariant
pub IsValid-update :
    (p : MessageRecord → Bool) (f : MessageRecord → MessageRecord) (q : Messages)
    → ((r : MessageRecord) → (f r).id ≡ r.id)
    → ((r : MessageRecord) → (f r).message_hash ≡ r.message_hash)
    → IsValid q
    → IsValid (record q { rows = update p f q.rows })
IsValid-update p f q keep_id keep_hash v = record {
  ordered = rw (column-update (λ r. r.id) p f keep_id q.rows) v.ordered;
  distinct = rw (column-update (λ r. r.message_hash) p f keep_hash q.rows) v.distinct;
}

Distinct-append :
    (hs : List String) (h : String) → All (λ x. h ≢ x) hs → Distinct hs → Distinct (hs ++ h ∷ [])
Distinct-append [] h a d = (tt, tt)
Distinct-append (x ∷ hs) h a d = (fresh_append hs x h a.0 d.0, Distinct-append hs h a.1 d.1)
  where
    fresh_append :
        (ys : List String) (x h : String)
        → h ≢ x
        → All (λ y. y ≢ x) ys
        → All (λ y. y ≢ x) (ys ++ h ∷ [])
    fresh_append [] x h n a = (n, tt)
    fresh_append (y ∷ ys) x h n a = (a.0, fresh_append ys x h n a.1)

absent_hash :
    (h : String) (rows : List MessageRecord)
    → select_one (has_hash h) rows ≡ none
    → All (λ x. h ≢ x) (hashes rows)
absent_hash h [] e = tt
absent_hash h (r ∷ rows) e =
    let rest = head_fails r rows e in
    (λ p. ground (arith, eq_iff r.message_hash h), absent_hash h rows rest.1)
  where
    head_fails :
        (r : MessageRecord) (rows : List MessageRecord)
        → select_one (has_hash h) (r ∷ rows) ≡ none
        → (has_hash h r ≡ false) × (select_one (has_hash h) rows ≡ none)
    head_fails r rows e = ground arith

pub insert-IsValid :
    (h : String) (at : ℕ) (m : Incoming) (q : Messages)
    → select_one (has_hash h) q.rows ≡ none
    → IsValid q
    → IsValid (record { rows = q.rows ++ new_row q.next_id h at m ∷ []; next_id = suc q.next_id })
insert-IsValid h at m q e v = record {
  ordered =
      rw (column-append (λ (r : MessageRecord). r.id) q.rows)
        (Ascending-append 1 (ids q.rows) q.next_id v.ordered);
  distinct =
      rw (column-append (λ (r : MessageRecord). r.message_hash) q.rows)
        (Distinct-append (hashes q.rows) h (absent_hash h q.rows e) v.distinct);
}

module _ (sha256 : String → String) where
  pub save-IsValid :
      (now : ℕ) (m : Incoming) (q : Messages) → IsValid q → IsValid (save_message sha256 now m q).1
  save-IsValid now m q v =
      let h = generate_message_hash sha256 m.topic m.raw_payload in
      elim (Option-cases (select_one (has_hash h) q.rows)) [
        | inl e ↦ rw (save_fresh sha256 now m q e) (insert-IsValid h (format_timestamp now) m q e v)
        | inr (r, e) ↦ rw (save_duplicate sha256 now m q r e) v
      ]

pub claim_ids-IsValid :
    (at : ℕ) (is : List ℕ) (q : Messages) → IsValid q → IsValid (claim_ids at is q).1
unfolding claim_ids
claim_ids-IsValid at [] q v = v
claim_ids-IsValid at (i ∷ is) q v =
    IsValid-update (λ r. id_in (i ∷ is) r.id) (claimed at) q (λ r. refl) (λ r. refl) v

pub claim-IsValid :
    (batch_size max_retries : ℤ) (now : ℕ) (q : Messages)
    → IsValid q
    → IsValid (claim_pending_messages batch_size max_retries now q).1
claim-IsValid batch_size max_retries now q v = elim (Bool-cases (is_nonpos batch_size)) [
  | inl e ↦ rw (claim_nothing batch_size max_retries now q e) v
  | inr e ↦ rw (claim_some batch_size max_retries now q e) (
      claim_ids-IsValid (format_timestamp now) (claimable_ids (pos_part batch_size) max_retries q) q
        v)
]

-- an UPDATE of the row with one id, committed or rolled back, keeps the invariant
pub update_one-IsValid :
    (i : ℕ) (set : MessageRecord → MessageRecord) (q : Messages)
    → ((r : MessageRecord) → (set r).id ≡ r.id)
    → ((r : MessageRecord) → (set r).message_hash ≡ r.message_hash)
    → IsValid q
    → IsValid (transaction (update_one i set) q).1
update_one-IsValid i set q keep_id keep_hash v =
    elim (Bool-cases (nat_eq (count (has_id i) q.rows) 1)) [
      | inl e ↦
          rw (update_one_found i set q e) (IsValid-update (has_id i) set q keep_id keep_hash v)
      | inr e ↦ rw (update_one_missing i set q e) v
    ]

pub mark_failed-IsValid :
    (i : ℕ) (error : String) (at : ℕ) (response : Option String) (retryable : Bool)
    (max_retries : Option ℤ) (q : Messages)
    → IsValid q
    → IsValid (mark_failed i error at response retryable max_retries q).1
unfolding mark_failed
mark_failed-IsValid i error at response retryable max_retries q v =
    update_one-IsValid i (failed_row error at response retryable max_retries) q (λ r. refl)
      (λ r. refl) v

with_status-IsValid :
    (i : ℕ) (text : String) (s : Option StatusValue) (processed_at : Option ℕ) (now : ℕ)
    (q : Messages)
    → IsValid q
    → IsValid (with_status i text s processed_at now q).1
with_status-IsValid i text none processed_at now q v = v
with_status-IsValid i text (some s) processed_at now q v =
    update_one-IsValid i _ q (λ r. refl) (λ r. refl) v

pub update_status-IsValid :
    (i : ℕ) (text : String) (processed_at : Option ℕ) (now : ℕ) (q : Messages)
    → IsValid q
    → IsValid (update_status i text processed_at now q).1
unfolding update_status
update_status-IsValid i text processed_at now q v =
    with_status-IsValid i text (read_status text) processed_at now q v

pub reset-IsValid :
    (stale_before : ℕ) (excluded : List ℕ) (now : ℕ) (q : Messages)
    → IsValid q
    → IsValid (reset_stale_processing stale_before excluded now q).1
unfolding reset_stale_processing
reset-IsValid stale_before excluded now q v = IsValid-update _ _ q (λ r. refl) (λ r. refl) v

write_replay-IsValid :
    (h : String) (now : ℕ) (a : AckReplayAttempt) (q : Messages)
    → IsValid q
    → IsValid (write_replay h now a q)
unfolding write_replay
write_replay-IsValid h now a q v = elim (Bool-cases a.allowed) [
  | inl e ↦ rw e (IsValid-update _ _ q (λ r. refl) (λ r. refl) v)
  | inr e ↦ rw e v
]

pub replay-IsValid :
    (h : String) (now : ℕ) (q : Messages)
    → IsValid q
    → IsValid (record_ack_replay_attempt h now q).1
unfolding record_ack_replay_attempt
replay-IsValid h now q v = elim (Option-cases (select_one (has_hash h) q.rows)) [
  | inl e ↦ rw (e, replay_row) v
  | inr (r, e) ↦ rw (e, replay_row) (write_replay-IsValid h now (decide_replay now r) q v)
]
