-- ===== src/Queue/Throttle.antt =====
-- The throttle on replayed ACKs, over any sequence of attempts.
use blackbear_edge_bridge.Prelude.{
  ℕ, ◌+◌, ◌*◌, ◌%◌, ◌≤◌, ◌<◌, ◌≡◌, ◌∙◌, refl, ap, String, Bool, true, false, some, List, [], ◌∷◌,
  arith, All, select_one, select_one-update, select_one-holds, updated, Bool-cases, inl, inr,
  if◌then◌else◌,
}
use blackbear_edge_bridge.Errors.{Result, ok, raise}
use blackbear_edge_bridge.Time.{micros, format_timestamp}
use blackbear_edge_bridge.Queue.Message.{MessageRecord, Messages, has_hash}
use blackbear_edge_bridge.Queue.Replay.{
  ack_replay_window, AckReplayAttempt, decide_replay, write_replay, replayed_row, replay_row,
  record_ack_replay_attempt,
}

abbrev one_if : Bool → ℕ
one_if true = 1
one_if false = 0

abbrev allowed_now : Result AckReplayAttempt → ℕ
allowed_now (ok a) = one_if a.allowed
allowed_now (raise e) = 0

-- how many of the attempts at the given times, one after the other, may replay
pub replays : String → List ℕ → Messages → ℕ
replays h [] q = 0
replays h (t ∷ ts) q =
    allowed_now (record_ack_replay_attempt h t q).0
    + replays h ts (record_ack_replay_attempt h t q).1

-- the row after an attempt
abbrev row_after : ℕ → AckReplayAttempt → MessageRecord → MessageRecord
row_after now a r = if a.allowed then replayed_row a.replay_count (format_timestamp now) r else r

write_found :
    (h : String) (now : ℕ) (a : AckReplayAttempt) (q : Messages) (r : MessageRecord)
    → select_one (has_hash h) q.rows ≡ some r
    → select_one (has_hash h) (write_replay h now a q).rows ≡ some (row_after now a r)
unfolding write_replay
write_found h now a q r e = elim (Bool-cases a.allowed) [
  | inl t ↦
      let f = replayed_row a.replay_count (format_timestamp now) in
      rw t (
        select_one-update (has_hash h) (has_hash h) f (λ s. refl) q.rows
        ∙ ap (updated (has_hash h) f) e
        ∙ rw (select_one-holds (has_hash h) q.rows r e))
  | inr t ↦ rw t e
]

-- an attempt on a stored message answers by its row, and writes to it
pub replay_answer :
    (h : String) (now : ℕ) (q : Messages) (r : MessageRecord)
    → select_one (has_hash h) q.rows ≡ some r
    → (record_ack_replay_attempt h now q).0 ≡ ok (decide_replay now r)
unfolding record_ack_replay_attempt
replay_answer h now q r e = rw (e, replay_row)

pub replay_written :
    (h : String) (now : ℕ) (q : Messages) (r : MessageRecord)
    → select_one (has_hash h) q.rows ≡ some r
    → select_one (has_hash h) (record_ack_replay_attempt h now q).1.rows
      ≡ some (row_after now (decide_replay now r) r)
unfolding record_ack_replay_attempt
replay_written h now q r e = rw (e, replay_row) (write_found h now (decide_replay now r) q r e)

-- A replay is allowed within 30 seconds of the last one only if fewer than three were counted, and
-- at least two seconds after the second in which the last one fell; it is then counted.
pub allowed_in_window :
    (now s : ℕ) (r : MessageRecord)
    → r.last_ack_replayed_at ≡ some s
    → now < s * micros + ack_replay_window
    → (decide_replay now r).allowed ≡ true
    → (r.ack_replay_count < 3)
      × (s * micros + 2 * micros ≤ now)
      × ((decide_replay now r).replay_count ≡ r.ack_replay_count + 1)
unfolding decide_replay
allowed_in_window now s r e w a = ground arith

-- the limit of the window does not fall
later_window :
    (now s : ℕ) (ts : List ℕ)
    → s * micros + 2 * micros ≤ now
    → All (λ t. t < s * micros + ack_replay_window) ts
    → All (λ t. t < format_timestamp now * micros + ack_replay_window) ts
later_window now s [] h a = tt
later_window now s (t ∷ ts) h a = (omega (arith, h, a.0), later_window now s ts h a.1)

-- However often a stored message is asked for within 30 seconds of its last replay, the replays that
-- are allowed and those counted before are three at most together.
pub replays_in_window :
    (h : String) (ts : List ℕ) (q : Messages) (r : MessageRecord) (s : ℕ)
    → select_one (has_hash h) q.rows ≡ some r
    → r.last_ack_replayed_at ≡ some s
    → r.ack_replay_count ≤ 3
    → All (λ t. t < s * micros + ack_replay_window) ts
    → replays h ts q + r.ack_replay_count ≤ 3
unfolding replays
replays_in_window h [] q r s e l c w = omega arith
replays_in_window h (t ∷ ts) q r s e l c w =
    let a = decide_replay t r in
    let q' = (record_ack_replay_attempt h t q).1 in
    let here = replay_answer h t q r e in
    let there = replay_written h t q r e in
    elim (Bool-cases a.allowed) [
      | inl allowed ↦
          let (few, gap, counted) = allowed_in_window t s r l w.0 allowed in
          let r' = replayed_row a.replay_count (format_timestamp t) r in
          let rest =
            replays_in_window h ts q' r' (format_timestamp t) (rw allowed at there) refl
              (omega (arith, few, counted)) (later_window t s ts gap w.1) in
          rw here (rw allowed (omega (arith, rest, counted)))
      | inr refused ↦
          let rest = replays_in_window h ts q' r s (rw refused at there) l c w.1 in
          rw here (rw refused (omega (arith, rest)))
    ]

-- A replay that is allowed comes more than one second after the one before it.
pub replay_gap :
    (before now : ℕ) (r : MessageRecord)
    → r.last_ack_replayed_at ≡ some (format_timestamp before)
    → (decide_replay now r).allowed ≡ true
    → before + micros < now
unfolding decide_replay
replay_gap before now r l a = ground arith

-- The least interval of two seconds is not kept: after a replay at a time whose part below a second is
-- not 0, a replay less than two seconds later is allowed.
pub replay_too_early :
    (r : MessageRecord) (before now : ℕ)
    → r.last_ack_replayed_at ≡ some (format_timestamp before)
    → r.ack_replay_count < 3
    → now ≡ format_timestamp before * micros + 2 * micros
    → 0 < before % micros
    → ((decide_replay now r).allowed ≡ true) × (now < before + 2 * micros)
unfolding decide_replay
replay_too_early r before now l c n f = (ground (arith), omega arith)
