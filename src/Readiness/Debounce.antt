-- ===== src/Readiness/Debounce.antt =====
-- The debounce: a change of state is confirmed only by an unbroken run of checks that is long enough.
use blackbear_edge_bridge.Prelude.{
  ℕ, ◌+◌, ◌*◌, ◌≤◌, ◌≡◌, Bool, true, false, some, List, [], ◌∷◌, ◌⊎◌, inl, inr, ◌≢◌, Option-cases,
  arith,
}
use blackbear_edge_bridge.Time.{micros}
use blackbear_edge_bridge.Readiness.Monitor.{
  ready, not_ready, Settings, Monitor, Check, succeeded, run_check_once, run, init,
}

-- The checks of the list, the last one first, all have the result `b` back to one made at time `t`.
abbrev pub Since : Bool → ℕ → List Check → Type 0
Since b t [] = ⊥
Since b t (c ∷ cs) = (succeeded c.outcome ≡ b) × ((c.at ≡ t) ⊎ Since b t cs)

-- What the timers say of the checks so far.
pub record IsTimed (m : Monitor) (cs : List Check) : Type 0 where
  pub failing : (t : ℕ) → m.disconnect_started_at ≡ some t → Since false t cs
  pub succeeding : (t : ℕ) → m.recovery_started_at ≡ some t → Since true t cs

module _ (s : Settings) (on : s.enabled ≡ true) where
  run_check-IsTimed :
      (c : Check) (m : Monitor) (cs : List Check)
      → IsTimed m cs
      → IsTimed (run_check_once s c m).1 (c ∷ cs)
  unfolding run_check_once
  run_check-IsTimed c m cs h = record {
    failing = λ t e. ground (arith, on, h.failing t);
    succeeding = λ t e. ground (arith, on, h.succeeding t);
  }

  run-IsTimed : (cs : List Check) → IsTimed (run s cs) cs
  unfolding run init
  run-IsTimed [] = record { failing = λ t e. ground arith; succeeding = λ t e. ground arith }
  run-IsTimed (c ∷ cs) = run_check-IsTimed c (run s cs) cs (run-IsTimed cs)

  down_by_timer :
      (c : Check) (m : Monitor)
      → m.state ≡ ready
      → (run_check_once s c m).1.state ≢ ready
      → (t : ℕ) × (m.disconnect_started_at ≡ some t)
        × (t + s.disconnect_delay * micros ≤ c.at)
        × (succeeded c.outcome ≡ false)
        × ((run_check_once s c m).1.state ≡ not_ready)
  unfolding run_check_once
  down_by_timer c m r n = elim (Option-cases m.disconnect_started_at) [
    | inl e ↦ absurd (n (ground (arith, on)))
    | inr (t, e) ↦ (t, e, ground (arith, on), ground (arith, on), ground (arith, on))
  ]

  up_by_timer :
      (c : Check) (m : Monitor)
      → m.state ≢ ready
      → (run_check_once s c m).1.state ≡ ready
      → (t : ℕ) × (m.recovery_started_at ≡ some t)
        × (t + s.recovery_delay * micros ≤ c.at)
        × (succeeded c.outcome ≡ true)
  unfolding run_check_once
  up_by_timer c m n r = elim (Option-cases m.recovery_started_at) [
    | inl e ↦ absurd (n (ground (arith, on)))
    | inr (t, e) ↦ (t, e, ground (arith, on), ground (arith, on))
  ]

  -- A READY monitor leaves READY only for NOT_READY, at a failing check, and only when every check
  -- back to one at a time t failed and the disconnect delay has passed since t.
  pub down_is_debounced :
      (c : Check) (cs : List Check)
      → (run s cs).state ≡ ready
      → (run s (c ∷ cs)).state ≢ ready
      → (t : ℕ) × ((run s (c ∷ cs)).state ≡ not_ready)
        × (succeeded c.outcome ≡ false)
        × Since false t cs
        × (t + s.disconnect_delay * micros ≤ c.at)
  unfolding run
  down_is_debounced c cs r n =
      let (t, e, late, failed, down) = down_by_timer c (run s cs) r n in
      (t, down, failed, (run-IsTimed cs).failing t e, late)

  -- The monitor becomes READY only at a check that succeeds, and only when every check back to one at
  -- a time t succeeded and the recovery delay has passed since t.
  pub up_is_debounced :
      (c : Check) (cs : List Check)
      → (run s cs).state ≢ ready
      → (run s (c ∷ cs)).state ≡ ready
      → (t : ℕ) × (succeeded c.outcome ≡ true)
        × Since true t cs
        × (t + s.recovery_delay * micros ≤ c.at)
  unfolding run
  up_is_debounced c cs n r =
      let (t, e, late, fine) = up_by_timer c (run s cs) n r in
      (t, fine, (run-IsTimed cs).succeeding t e, late)
