-- ===== src/Readiness/Announce.antt =====
-- What the monitor tells the PLC: the BR values that it hands to the publisher.
use blackbear_edge_bridge.Prelude.{
  ℕ, ◌≡◌, refl, Bool, true, false, List, [], ◌∷◌, nat_eq, arith, if◌then◌else◌, ◌&&◌, not,
}
use blackbear_edge_bridge.Readiness.Monitor.{
  ReadinessState, ready, not_ready, disabled, Settings, Monitor, Check, same_state, run_check_once,
  run, init,
}

-- The BR value that stands for a state, if the PLC was told one.
abbrev pub told : ReadinessState → List ℕ → Bool
told ready (b ∷ bs) = nat_eq b 1
told ready [] = false
told not_ready (b ∷ bs) = nat_eq b 0
told not_ready [] = false
told _ [] = true
told _ (b ∷ bs) = false

-- Every value differs from the one before it.
abbrev pub alternates : List ℕ → Bool
alternates [] = true
alternates (b ∷ []) = true
alternates (b ∷ b' ∷ bs) = not (nat_eq b b') && alternates (b' ∷ bs)

pub record IsAnnounced (m : Monitor) : Type 0 where
  pub is_told : told m.state m.sent ≡ true
  pub is_alternating : alternates m.sent ≡ true

run_check-IsAnnounced :
    (s : Settings) (c : Check) (m : Monitor) → IsAnnounced m → IsAnnounced (run_check_once s c m).1
unfolding run_check_once
run_check-IsAnnounced s c m h = ground arith

-- After any checks, whatever the check and the publisher return or raise, the last BR value that was
-- handed to the publisher is 1 in READY and 0 in NOT_READY, none was in the other states, and no two
-- values in a row are equal.
pub run-IsAnnounced : (s : Settings) (cs : List Check) → IsAnnounced (run s cs)
unfolding run init
run-IsAnnounced s [] = ground arith
run-IsAnnounced s (c ∷ cs) = run_check-IsAnnounced s c (run s cs) (run-IsAnnounced s cs)

-- the BR value of a state
abbrev pub br_value_of : ReadinessState → ℕ
br_value_of ready = 1
br_value_of _ = 0

check_sends :
    (s : Settings) (c : Check) (m : Monitor)
    → (run_check_once s c m).1.sent ≡ (
        if same_state m.state (run_check_once s c m).1.state
        then m.sent
        else br_value_of (run_check_once s c m).1.state ∷ m.sent)
unfolding run_check_once
check_sends s c m = ground arith

-- A check hands a BR value to the publisher exactly when the state changes, and it is the value of
-- the new state: an announcement that the publisher failed to deliver is not repeated.
pub sends_on_change :
    (s : Settings) (c : Check) (cs : List Check)
    → (run s (c ∷ cs)).sent ≡ (
        if same_state (run s cs).state (run s (c ∷ cs)).state
        then (run s cs).sent
        else br_value_of (run s (c ∷ cs)).state ∷ (run s cs).sent)
unfolding run
sends_on_change s c cs = check_sends s c (run s cs)

-- A disabled monitor stays DISABLED and hands nothing to the publisher, whatever the checks.
pub disabled_is_silent :
    (s : Settings) (cs : List Check)
    → s.enabled ≡ false
    → ((run s cs).state ≡ disabled) × ((run s cs).sent ≡ [])
unfolding run init
disabled_is_silent s [] off = (rw off, refl)
disabled_is_silent s (c ∷ cs) off =
    let (d, e) = disabled_is_silent s cs off in (skipped c (run s cs) d, nothing c (run s cs) e)
  where
    skipped :
        (c : Check) (m : Monitor) → m.state ≡ disabled → (run_check_once s c m).1.state ≡ disabled
    skipped c m d = unfold run_check_once in rw off d

    nothing : (c : Check) (m : Monitor) → m.sent ≡ [] → (run_check_once s c m).1.sent ≡ []
    nothing c m e = unfold run_check_once in rw off e
