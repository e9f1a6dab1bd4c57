-- ===== src/Readiness/Monitor.antt =====
-- `ReadinessRuntimeState` and `ReadinessMonitor` of app/readiness.py.
-- The Odoo check and the MQTT publisher are outside: what each returns or raises is given to a check.
-- `sent` records the calls of the publisher, the last one first.
use blackbear_edge_bridge.Prelude.{
  ℕ, ◌+◌, ◌-◌, ◌*◌, String, Bool, true, false, Option, none, some, List, [], ◌∷◌, leb,
  if◌then◌else◌,
}
use blackbear_edge_bridge.Time.{micros, format_timestamp}

pub data ReadinessState : Type 0 where
  unknown ready not_ready disabled : ReadinessState

-- A call of the check or of the publisher: it returns a truth value, or raises.
pub data Outcome : Type 0 where
  returned : Bool → Outcome
  raised : String → Outcome

pub record Settings : Type 0 where
  pub enabled : Bool
  pub check_timeout_seconds : ℕ
  -- seconds
  pub disconnect_delay : ℕ
  pub recovery_delay : ℕ

pub record Monitor : Type 0 where
  pub state : ReadinessState
  pub last_check_at : Option ℕ
  pub last_success_at : Option ℕ
  pub last_failure_at : Option ℕ
  pub last_published_at : Option ℕ
  pub last_error : Option String
  pub disconnect_started_at : Option ℕ
  pub recovery_started_at : Option ℕ
  pub sent : List ℕ

-- One run of the check at a time, with what the publisher would do if it were called.
pub record Check : Type 0 where
  pub at : ℕ
  pub outcome : Outcome
  pub publish : Outcome

abbrev pub first_state : Bool → ReadinessState
first_state true = unknown
first_state false = disabled

unfoldable pub init : Settings → Monitor
init s = record {
  state = first_state s.enabled;
  last_check_at = none;
  last_success_at = none;
  last_failure_at = none;
  last_published_at = none;
  last_error = none;
  disconnect_started_at = none;
  recovery_started_at = none;
  sent = [];
}

-- `_run_readiness_check`
abbrev pub succeeded : Outcome → Bool
succeeded (returned b) = b
succeeded (raised e) = false

abbrev pub error_of : Outcome → Option String
error_of (returned b) = none
error_of (raised e) = some e

-- `record_check`
abbrev pub record_check : Bool → ℕ → Option String → Monitor → Monitor
record_check true at e m = record m {
  last_check_at = some at;
  last_error = e;
  last_success_at = some at;
}
record_check false at e m = record m {
  last_check_at = some at;
  last_error = e;
  last_failure_at = some at;
}

-- `_publish_br`
abbrev pub publish_br : ℕ → ℕ → Outcome → Monitor → Monitor
publish_br br_value now (returned true) m = record m {
  sent = br_value ∷ m.sent;
  last_published_at = some now;
}
publish_br br_value now (returned false) m = record m { sent = br_value ∷ m.sent }
publish_br br_value now (raised e) m = record m { sent = br_value ∷ m.sent }

abbrev pub same_state : ReadinessState → ReadinessState → Bool
same_state unknown unknown = true
same_state ready ready = true
same_state not_ready not_ready = true
same_state disabled disabled = true
same_state _ _ = false

-- `_confirm_state`
unfoldable pub confirm_state : ReadinessState → ℕ → Check → Monitor → Monitor
confirm_state new_state br_value c m =
    if same_state m.state new_state
    then m
    else publish_br br_value c.at c.publish
        (record m { state = new_state; disconnect_started_at = none; recovery_started_at = none })

-- the debounce of a recovery, once the disconnect timer is cleared
abbrev recover : Settings → Option ℕ → Check → Monitor → Monitor
recover s none c m = record m { disconnect_started_at = none; recovery_started_at = some c.at }
recover s (some started) c m =
    let m' = record m { disconnect_started_at = none } in
    if leb (started + s.recovery_delay * micros) c.at then confirm_state ready 1 c m' else m'

abbrev success_in : ReadinessState → Settings → Check → Monitor → Monitor
success_in ready s c m = record m { disconnect_started_at = none; recovery_started_at = none }
success_in _ s c m = recover s m.recovery_started_at c m

-- `_handle_success`
unfoldable pub handle_success : Settings → Check → Monitor → Monitor
unfolding confirm_state
handle_success s c m = success_in m.state s c m

-- the debounce of a disconnect, once the recovery timer is cleared
abbrev disconnect : Settings → Option ℕ → Check → Monitor → Monitor
disconnect s none c m = record m { disconnect_started_at = some c.at; recovery_started_at = none }
disconnect s (some started) c m =
    let m' = record m { recovery_started_at = none } in
    if leb (started + s.disconnect_delay * micros) c.at then confirm_state not_ready 0 c m' else m'

abbrev failure_in : ReadinessState → Settings → Check → Monitor → Monitor
failure_in unknown s c m = confirm_state not_ready 0 c (record m { recovery_started_at = none })
failure_in not_ready s c m = record m { disconnect_started_at = none; recovery_started_at = none }
failure_in _ s c m = disconnect s m.disconnect_started_at c m

-- `_handle_failure`
unfoldable pub handle_failure : Settings → Check → Monitor → Monitor
unfolding confirm_state
handle_failure s c m = failure_in m.state s c m

-- `run_check_once`
unfoldable pub run_check_once : Settings → Check → Monitor → Bool × Monitor
unfolding handle_success handle_failure
run_check_once s c m =
    if s.enabled
    then (let success = succeeded c.outcome in
        let m' = record_check success c.at (error_of c.outcome) m in
        (success, if success then handle_success s c m' else handle_failure s c m'))
    else (false, m)

-- The monitor after checks, the last one first in the list.
unfoldable pub run : Settings → List Check → Monitor
run s [] = init s
run s (c ∷ cs) = (run_check_once s c (run s cs)).1

-- `_elapsed_seconds`, in microseconds and not below 0
abbrev pub elapsed : Option ℕ → ℕ → Option ℕ
elapsed none now = none
elapsed (some started) now = some (now - started)

abbrev timestamp_optional : Option ℕ → Option ℕ
timestamp_optional none = none
timestamp_optional (some t) = some (format_timestamp t)

pub record ReadinessSnapshot : Type 0 where
  pub enabled : Bool
  pub state : ReadinessState
  pub check_timeout_seconds : ℕ
  pub last_check_at : Option ℕ
  pub last_success_at : Option ℕ
  pub last_failure_at : Option ℕ
  pub last_published_at : Option ℕ
  pub last_error : Option String
  pub disconnect_elapsed : Option ℕ
  pub recovery_elapsed : Option ℕ

unfoldable pub snapshot : Settings → ℕ → Monitor → ReadinessSnapshot
snapshot s now m = record {
  enabled = s.enabled;
  state = m.state;
  check_timeout_seconds = s.check_timeout_seconds;
  last_check_at = timestamp_optional m.last_check_at;
  last_success_at = timestamp_optional m.last_success_at;
  last_failure_at = timestamp_optional m.last_failure_at;
  last_published_at = timestamp_optional m.last_published_at;
  last_error = m.last_error;
  disconnect_elapsed = elapsed m.disconnect_started_at now;
  recovery_elapsed = elapsed m.recovery_started_at now;
}
