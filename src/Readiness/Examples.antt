-- ===== src/Readiness/Examples.antt =====
-- The monitor on concrete checks: a recovery, a disconnect and a publisher that fails.
use blackbear_edge_bridge.Prelude.{ℕ, ◌+◌, ◌*◌, ◌≤◌, ◌≡◌, ◌≢◌, refl, true, false, List, [], ◌∷◌}
use blackbear_edge_bridge.Time.{micros}
use blackbear_edge_bridge.Readiness.Monitor.{
  ready, not_ready, returned, raised, Settings, Check, succeeded, run, init, run_check_once,
}
use blackbear_edge_bridge.Readiness.Debounce.{Since, down_is_debounced, up_is_debounced}
use blackbear_edge_bridge.Readiness.Announce.{IsAnnounced, run-IsAnnounced}

abbrev settings : Settings
settings = record {
  enabled = true;
  check_timeout_seconds = 3;
  disconnect_delay = 5;
  recovery_delay = 10;
}

abbrev fine : ℕ → Check
fine t = record { at = t * micros; outcome = returned true; publish = returned true }

abbrev down : ℕ → Check
down t = record { at = t * micros; outcome = raised "timed out"; publish = raised "no broker" }

abbrev up_checks : List Check
up_checks = fine 30 ∷ down 0 ∷ []

comes_up : (run settings (fine 60 ∷ up_checks)).state ≡ ready
unfolding run init run_check_once
comes_up = refl

still_down : (run settings up_checks).state ≢ ready
unfolding run init run_check_once
still_down e = cc

up_is_debounced_example :
    (t : ℕ) × (succeeded (fine 60).outcome ≡ true)
    × Since true t up_checks
    × (t + 10 * micros ≤ 60 * micros)
up_is_debounced_example = up_is_debounced settings refl (fine 60) up_checks still_down comes_up

abbrev failing_checks : List Check
failing_checks = down 90 ∷ fine 60 ∷ up_checks

still_ready : (run settings failing_checks).state ≡ ready
unfolding run init run_check_once
still_ready = refl

goes_down : (run settings (down 120 ∷ failing_checks)).state ≢ ready
unfolding run init run_check_once
goes_down e = cc

down_is_debounced_example :
    (t : ℕ) × ((run settings (down 120 ∷ failing_checks)).state ≡ not_ready)
    × (succeeded (down 120).outcome ≡ false)
    × Since false t failing_checks
    × (t + 5 * micros ≤ 120 * micros)
down_is_debounced_example =
    down_is_debounced settings refl (down 120) failing_checks still_ready goes_down

run-IsAnnounced_example : IsAnnounced (run settings (down 120 ∷ failing_checks))
run-IsAnnounced_example = run-IsAnnounced settings (down 120 ∷ failing_checks)

-- BR=0, BR=1, BR=0, the last one first
sent_in_turn : (run settings (down 120 ∷ failing_checks)).sent ≡ 0 ∷ 1 ∷ 0 ∷ []
unfolding run init run_check_once
sent_in_turn = refl

abbrev switched_off : Settings
switched_off = record settings { enabled = false }
