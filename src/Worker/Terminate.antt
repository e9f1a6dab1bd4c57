-- ===== src/Worker/Terminate.antt =====
-- `_terminate_process`, `_terminate_active_submission` and `_clear_active_submission` of
-- app/queue_worker.py. How a child process takes the two signals is a parameter.
use blackbear_edge_bridge.Prelude.{
  ℕ, ◌≡◌, refl, String, Bool, true, false, ◌&&◌, Option, none, some, [], arith, if◌then◌else◌,
}
use blackbear_edge_bridge.Worker.Submission.{ChildRun}
use blackbear_edge_bridge.Worker.Round.{ActiveSubmission, protected_ids}

-- whether the process is alive at first, and still after each join of two seconds
pub record ChildProcess : Type 0 where
  pub is_alive : Bool
  pub survives_terminate : Bool
  pub survives_kill : Bool

pub record Termination : Type 0 where
  pub terminated : Bool
  pub killed : Bool
  pub still_alive : Bool

abbrev pub after_terminate : ChildProcess → Termination
after_terminate c =
    if c.survives_terminate
    then record { terminated = true; killed = true; still_alive = c.survives_kill }
    else record { terminated = true; killed = false; still_alive = false }

unfoldable pub terminate_process : ChildProcess → Termination
terminate_process c =
    if c.is_alive
    then after_terminate c
    else record { terminated = false; killed = false; still_alive = false }

-- a submission whose child is alive after the submission timeout
abbrev pub timed_out_run : ChildProcess → String → ChildRun
timed_out_run c exitcode =
    let t = terminate_process c in ChildRun.still_alive t.terminated t.killed exitcode

-- the active submission afterwards, and whether the session of the client is reset
abbrev pub terminate_one : Bool → ActiveSubmission → Option ActiveSubmission × Bool
terminate_one true a = (none, true)
terminate_one false a = (some a, false)

unfoldable pub terminate_active_submission :
    Option ActiveSubmission → Option ActiveSubmission × Bool
terminate_active_submission none = (none, false)
terminate_active_submission (some a) = terminate_one a.is_alive a

-- A child is left alive only when it survives both signals; it is killed only when it survives the first.
pub terminated_exactly :
    (c : ChildProcess)
    → c.is_alive ≡ true
    → ((terminate_process c).terminated ≡ true)
      × ((terminate_process c).killed ≡ c.survives_terminate)
      × ((terminate_process c).still_alive ≡ (c.survives_terminate && c.survives_kill))
unfolding terminate_process
terminated_exactly c h = (ground (arith, h), ground (arith, h), ground (arith, h))

-- After a stop has terminated the active submission, the watchdog excludes no message, at any time.
pub stop_unprotects :
    (submission_timeout now : ℕ) (active : Option ActiveSubmission)
    → protected_ids submission_timeout now (terminate_active_submission active).0 ≡ []
unfolding protected_ids terminate_active_submission
stop_unprotects submission_timeout now none = refl
stop_unprotects submission_timeout now (some a) = by_alive a.is_alive refl
  where
    by_alive :
        (b : Bool)
        → a.is_alive ≡ b
        → protected_ids submission_timeout now (terminate_one b a).0 ≡ []
    by_alive true h = refl
    by_alive false h = rw h refl
