-- ===== src/Api/Routes.antt =====
-- `create_api_app` of app/api.py: the authentication, and the routes that ask for it. A request comes
-- with its parameters read; SQLite answers the dashboard's queries.
use Prim.Native.Char.{code}
use Prim.Native.String.{[], ◌∷◌}
use blackbear_edge_bridge.Prelude.{
  String, Bool, true, ◌&&◌, not, Option, none, some, List, ℤ, pos_part, leb, ltb, ◌==◌,
  if◌then◌else◌,
}
use blackbear_edge_bridge.Errors.{Result, Checked, accept, reject}
use blackbear_edge_bridge.Production.Tables.{ProductionRecord, DailySummary, Production}
use blackbear_edge_bridge.Dashboard.Query.{
  Dates, Filters, SummaryTotals, query_recent_production_records, query_daily_production_summary,
  query_production_summary_totals,
}
use blackbear_edge_bridge.Api.Call.{JsonResponse, ApiContext, ApiCall, ApiState}
use blackbear_edge_bridge.Api.Handler.{plc_command}

-- HTTPBasicCredentials
pub record Credentials : Type 0 where
  pub username : String
  pub password : String

-- `_auth_error`, with status 401, and the TypeError of `secrets.compare_digest`
pub data AuthError : Type 0 where
  unauthorized : AuthError
  not_ascii : AuthError

unfoldable pub is_ascii : String → Bool
is_ascii [] = true
is_ascii (c ∷ s) = ltb (code c) 128 && is_ascii s

-- secrets.compare_digest of two str, which have to be ASCII
unfoldable pub compare_digest : String → String → Checked AuthError Bool
compare_digest a b = if is_ascii a && is_ascii b then accept (a == b) else reject not_ascii

-- beb_api_username and beb_api_password
module _ (configured : Credentials) where
  abbrev pub compared :
      Credentials → Checked AuthError Bool → Checked AuthError Bool → Checked AuthError String
  compared given (accept username_ok) (accept password_ok) =
      if not (username_ok && password_ok) then reject unauthorized else accept given.username
  compared given (accept username_ok) (reject e) = reject e
  compared given (reject e) password = reject e

  unfoldable pub authenticate : Option Credentials → Checked AuthError String
  authenticate none = reject unauthorized
  authenticate (some given) =
      compared given (compare_digest given.username configured.username)
        (compare_digest given.password configured.password)

-- the routes that depend on `authenticate`, each with its parameters
pub data Route : Type 0 where
  dashboard_recent : Filters → ℤ → Route
  dashboard_daily : Filters → ℤ → Route
  dashboard_summary : Filters → Route
  post_command : ApiCall → Route

pub data Answer : Type 0 where
  refused : AuthError → Answer
  -- 422 of a parameter out of its range
  out_of_range : Answer
  records : List ProductionRecord → Answer
  summaries : List DailySummary → Answer
  totals : SummaryTotals → Answer
  command : Result JsonResponse → Answer

-- Query(default=100, ge=1, le=500)
unfoldable pub limit_in_range : ℤ → Bool
limit_in_range limit = leb 1 (pos_part limit) && leb (pos_part limit) 500

-- what the routes read and change
pub record Service : Type 0 where
  pub api : ApiState
  pub production : Production

module _ (x : ApiContext) (dates : Dates) where
  -- the audit row has the name that was authenticated
  abbrev pub as_user : String → ApiCall → ApiCall
  as_user username c = record c { request = record c.request { username = some username } }

  abbrev pub answered : Service → Result JsonResponse × ApiState → Answer × Service
  answered s (r, a) = (command r, record s { api = a })

  unfoldable pub handle : String → Route → Service → Answer × Service
  handle username (dashboard_recent f limit) s =
      if limit_in_range limit
      then (records (query_recent_production_records dates f limit s.production), s)
      else (out_of_range, s)
  handle username (dashboard_daily f limit) s =
      if limit_in_range limit
      then (summaries (query_daily_production_summary dates f limit s.production), s)
      else (out_of_range, s)
  handle username (dashboard_summary f) s =
      (totals (query_production_summary_totals dates f s.production), s)
  handle username (post_command c) s = answered s (plc_command x (as_user username c) s.api)

  abbrev pub admitted : Checked AuthError String → Route → Service → Answer × Service
  admitted (accept username) route s = handle username route s
  admitted (reject e) route s = (refused e, s)

  -- a request to one of the routes: the authentication, then the handler
  unfoldable pub serve : Credentials → Option Credentials → Route → Service → Answer × Service
  serve configured given route s = admitted (authenticate configured given) route s
