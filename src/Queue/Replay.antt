-- ===== src/Queue/Replay.antt =====
-- `record_ack_replay_attempt` of app/database.py: the throttle on replayed ACKs.
use blackbear_edge_bridge.Prelude.{
  ℕ, ◌+◌, ◌*◌, String, Bool, true, false, Option, none, some, ltb, leb, select_one, update,
  if◌then◌else◌,
}
use blackbear_edge_bridge.Errors.{Result, ok, raise, hash_not_found}
use blackbear_edge_bridge.Time.{micros, format_timestamp, parse_timestamp}
use blackbear_edge_bridge.Queue.Message.{MessageRecord, Messages, has_hash}

abbrev pub ack_replay_max_count : ℕ
ack_replay_max_count = 3

-- timedelta(seconds=2), timedelta(seconds=30)
abbrev pub ack_replay_min_interval : ℕ
ack_replay_min_interval = 2 * micros

abbrev pub ack_replay_window : ℕ
ack_replay_window = 30 * micros

pub data Reason : Type 0 where
  replayed replay_limit_reached minimum_interval : Reason

pub record AckReplayAttempt : Type 0 where
  pub allowed : Bool
  pub reason : Reason
  pub replay_count : ℕ
  pub last_ack_replayed_at : Option ℕ

-- The count and the last replay that still matter at `now`: both are reset when there is no last
-- replay, or when `now - last_replayed_at >= ACK_REPLAY_WINDOW`.
abbrev pub in_window : ℕ → ℕ → Option ℕ → ℕ × Option ℕ
in_window now n none = (0, none)
in_window now n (some last) =
    if leb (last + ack_replay_window) now then (0, none) else (n, some last)

-- `last_replayed_at is not None and now - last_replayed_at < ACK_REPLAY_MIN_INTERVAL`
abbrev pub too_soon : ℕ → Option ℕ → Bool
too_soon now none = false
too_soon now (some last) = ltb now (last + ack_replay_min_interval)

abbrev pub replayed_row : ℕ → ℕ → MessageRecord → MessageRecord
replayed_row n at r = record r { ack_replay_count = n; last_ack_replayed_at = some at }

-- What one row allows at `now`.
unfoldable pub decide_replay : ℕ → MessageRecord → AckReplayAttempt
decide_replay now r =
    let (n, last) = in_window now r.ack_replay_count (parse_timestamp r.last_ack_replayed_at) in
    if leb ack_replay_max_count n
    then record {
      allowed = false;
      reason = replay_limit_reached;
      replay_count = n;
      last_ack_replayed_at = r.last_ack_replayed_at;
    }
    else if too_soon now last
    then record {
      allowed = false;
      reason = minimum_interval;
      replay_count = n;
      last_ack_replayed_at = r.last_ack_replayed_at;
    }
    else record {
      allowed = true;
      reason = replayed;
      replay_count = n + 1;
      last_ack_replayed_at = some (format_timestamp now);
    }

-- UPDATE … WHERE message_hash = ?, when the replay is allowed
unfoldable pub write_replay : String → ℕ → AckReplayAttempt → Messages → Messages
write_replay h now a q =
    if a.allowed
    then record q {
      rows = update (has_hash h) (replayed_row a.replay_count (format_timestamp now)) q.rows;
    }
    else q

abbrev pub replay_row :
    String → ℕ → Option MessageRecord → Messages → Result AckReplayAttempt × Messages
replay_row h now none q = (raise (hash_not_found h), q)
replay_row h now (some r) q = let a = decide_replay now r in (ok a, write_replay h now a q)

unfoldable pub record_ack_replay_attempt :
    String → ℕ → Messages → Result AckReplayAttempt × Messages
unfolding decide_replay write_replay
record_ack_replay_attempt h now q = replay_row h now (select_one (has_hash h) q.rows) q
