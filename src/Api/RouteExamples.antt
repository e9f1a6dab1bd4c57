-- ===== src/Api/RouteExamples.antt =====
-- The authenticated routes on concrete requests.
use blackbear_edge_bridge.Prelude.{◌≡◌, ◌≢◌, ◌⊎◌, refl, some, [], pos}
use blackbear_edge_bridge.Errors.{accept, reject}
use blackbear_edge_bridge.Production.Tables.{no_production}
use blackbear_edge_bridge.Dashboard.Query.{Dates, no_filters}
use blackbear_edge_bridge.Api.Call.{ApiContext}
use blackbear_edge_bridge.Api.Routes.{
  Credentials, AuthError, unauthorized, is_ascii, authenticate, Route, dashboard_recent, Service,
  refused, handle, serve,
}
use blackbear_edge_bridge.Api.Guarded.{IsAscii, authenticate-exact, serve-Guarded}

abbrev configured : Credentials
configured = record { username = "odoo"; password = "secret" }

abbrev guess : Credentials
guess = record { username = "odoo"; password = "Secret" }

configured-IsAscii : IsAscii configured
unfolding is_ascii
configured-IsAscii = (refl, refl)

guess-IsAscii : IsAscii guess
unfolding is_ascii
guess-IsAscii = (refl, refl)

authenticate-exact_example :
    ((authenticate configured (some guess) ≡ accept guess.username) × (guess ≡ configured))
    ⊎ ((authenticate configured (some guess) ≡ reject unauthorized) × (guess ≢ configured))
authenticate-exact_example = authenticate-exact configured guess configured-IsAscii guess-IsAscii

abbrev context : ApiContext
context = record {
  loads = λ t. reject "Expecting value";
  encode = λ v. "{}";
  encode_payload = λ v. "{ }";
  sha256 = λ t. t;
  topic = "commands";
  idempotency_ttl_seconds = pos 60;
}

abbrev dates : Dates
dates = record { timestamp_text = λ n. "2026"; date_text = λ n. "2026" }

abbrev service : Service
service = record {
  api = record { commands = record { rows = []; next_id = 1 }; published = [] };
  production = no_production;
}

abbrev recent : Route
recent = dashboard_recent no_filters (pos 100)

serve-Guarded_example :
    ((some guess ≡ some configured)
      × (serve context dates configured (some guess) recent service
          ≡ handle context dates configured.username recent service))
    ⊎ ((e : AuthError) × (serve context dates configured (some guess) recent service
          ≡ (refused e, service)))
serve-Guarded_example = serve-Guarded context dates configured (some guess) recent service
