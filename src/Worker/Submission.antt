-- ===== src/Worker/Submission.antt =====
-- `_submit_with_hard_timeout` of app/queue_worker.py: what the parent makes of its child process.
use Prim.Native.String.{◌++◌}
use blackbear_edge_bridge.Prelude.{
  String, Bool, true, false, ◌||◌, Option, none, some, ◌==◌, if◌then◌else◌,
}
use blackbear_edge_bridge.Json.{Json}

-- What the parent observes: the child still alive after `join(timeout)`, with what terminating it
-- did; or ended, with the result that it wrote. An exit code is what its `str` shows.
-- A result that is there is one that the child wrote whole: a file cut short by the death of the child
-- while it wrote, which `pickle.load` refuses, is not among the runs.
pub data ChildRun : Type 0 where
  still_alive : Bool → Bool → String → ChildRun
  no_result : String → ChildRun
  child_response : Json → String → ChildRun
  child_error : String → String → String → ChildRun

-- without `elapsed_seconds`, which only the log shows
pub record SubmissionResult : Type 0 where
  pub response : Option Json
  pub error : Option String
  pub error_type : Option String
  pub timed_out : Bool
  pub terminated : Bool
  pub killed : Bool
  pub exitcode : String

-- `str(... or default)`
abbrev or_default : String → String → String
or_default text default = if text == "" then default else text

abbrev ended : Option Json → Option String → Option String → String → SubmissionResult
ended response error error_type exitcode = record {
  response = response;
  error = error;
  error_type = error_type;
  timed_out = false;
  terminated = false;
  killed = false;
  exitcode = exitcode;
}

unfoldable pub submission_of : ChildRun → SubmissionResult
submission_of (still_alive terminated killed exitcode) = record {
  response = none;
  error = none;
  error_type = some "timeout";
  timed_out = true;
  terminated = terminated;
  killed = killed;
  exitcode = exitcode;
}
submission_of (no_result exitcode) =
    ended none
      (some ("Odoo submission child exited without a result (exitcode=" ++ (exitcode ++ ")")))
      (some "child-exit") exitcode
submission_of (child_response response exitcode) = ended (some response) none none exitcode
submission_of (child_error error_type error exitcode) =
    ended none (some (or_default error "Odoo submission failed"))
      (some (or_default error_type "error")) exitcode

-- whether `_reset_odoo_client_after_unsafe_transport` is called
unfoldable pub resets_client : ChildRun → Bool
resets_client (still_alive terminated killed exitcode) = true
resets_client (no_result exitcode) = true
resets_client (child_response response exitcode) = false
resets_client (child_error error_type error exitcode) =
    or_default error_type "error" == "OdooSubmissionError"
    || or_default error_type "error" == "OdooAuthenticationError"
