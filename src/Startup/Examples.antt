-- ===== src/Startup/Examples.antt =====
-- The configuration and the start on concrete environments.
use blackbear_edge_bridge.Prelude.{
  ◌≤◌, ◌≡◌, refl, true, false, none, some, [], Bool, pos, negsuc, arith, ◌==◌, if◌then◌else◌,
}
use blackbear_edge_bridge.Errors.{accept}
use blackbear_edge_bridge.Queue.Message.{Messages}
use blackbear_edge_bridge.Readiness.Monitor.{Settings, run, snapshot}
use blackbear_edge_bridge.Health.Status.{DatabaseStatus, fresh_status}
use blackbear_edge_bridge.Production.Tables.{no_production}
use blackbear_edge_bridge.Health.Endpoint.{
  HealthSettings, worker_health, readiness_health, status_ok, health,
}
use blackbear_edge_bridge.Startup.Read.{Letters, Environment, digit_count, get_int, get_bool}
use blackbear_edge_bridge.Startup.Numerals.{Numeral, one, more, get_int-reads}
use blackbear_edge_bridge.Startup.Config.{AppConfig, load_config}
use blackbear_edge_bridge.Startup.Load.{variables, texts, read_all}
use blackbear_edge_bridge.Startup.Loaded.{outline, with_texts, load_config-exact}
use blackbear_edge_bridge.Startup.Parts.{
  create_odoo_worker, create_readiness_monitor, perform, mqtt_client, api_server, Call, before_try,
  in_finally, main,
}
use blackbear_edge_bridge.Startup.Shutdown.{any, is_start, Returns}
use blackbear_edge_bridge.Startup.Offline.{offline_is_ok}

abbrev letters : Letters
letters = record { decimal = λ c. none; lower = λ s. s; upper = λ s. s }

abbrev environment : Environment
environment = λ name. if name == "ODOO_TIMEOUT" then some "-15" else none

fifteen : Numeral "15" 15
fifteen = more "5" 5 (one "1" 1 (omega arith) refl) (omega arith) refl

few_digits : digit_count "15" ≤ 4300
unfolding digit_count
few_digits = omega arith

get_int-reads_example : get_int letters environment "ODOO_TIMEOUT" (pos 90) ≡ accept (negsuc 14)
get_int-reads_example =
    get_int-reads letters environment "ODOO_TIMEOUT" (pos 90) true fifteen few_digits refl

load_config-exact_example :
    outline (load_config letters environment)
    ≡ with_texts (texts letters environment) (read_all letters environment variables)
load_config-exact_example = load_config-exact letters environment

-- what an empty environment gives
abbrev defaults : AppConfig
defaults = record {
  mqtt_host = "localhost";
  mqtt_port = pos 1883;
  mqtt_client_id = "BLACKBEAR_PYTHON_BRIDGE_DEV";
  mqtt_plc_to_odoo_topic = "MQTT/PLC_TO_ODOO/topic";
  mqtt_odoo_to_plc_topic = "MQTT/ODOO_TO_PLC/topic";
  mqtt_keepalive = pos 60;
  database_path = "data/bridge.db";
  log_level = "INFO";
  odoo_enabled = false;
  odoo_url = "https://test-bbw.odoo.com";
  odoo_database = "broadtechit-test-bbw-stage-34933250";
  odoo_username = "admin";
  odoo_password = "";
  odoo_model = "iot.configuration";
  odoo_submit_method = "xmlrpc_submit_print_data";
  odoo_timeout = pos 90;
  odoo_worker_interval = pos 2;
  odoo_batch_size = pos 10;
  odoo_max_retries = pos 10;
  odoo_stale_processing_seconds = pos 300;
  odoo_worker_heartbeat_seconds = pos 60;
  beb_api_enabled = false;
  beb_api_host = "127.0.0.1";
  beb_api_port = pos 8000;
  beb_api_username = "odoo";
  beb_api_password = "";
  beb_api_request_timeout = pos 10;
  beb_api_idempotency_ttl_seconds = pos 86400;
  beb_api_max_body_bytes = pos 16384;
  beb_api_log_request_body = true;
  beb_ready_enabled = true;
  beb_ready_check_interval_seconds = pos 30;
  beb_ready_check_timeout_seconds = pos 3;
  beb_ready_auth_revalidate_seconds = pos 300;
  beb_ready_disconnect_delay_seconds = pos 5;
  beb_ready_recovery_delay_seconds = pos 10;
  beb_ready_topic = "MQTT/ODOO_TO_PLC/topic";
  machine_id = "BLACKBEAR_PYTHON_BRIDGE_DEV";
  sqlite_raw_retention_days = pos 30;
  sqlite_cleanup_enabled = true;
  sqlite_cleanup_interval_hours = pos 24;
  sqlite_cleanup_batch_size = pos 1000;
  sqlite_vacuum_enabled = false;
  sqlite_reconcile_batch_size = pos 100;
}

defaults_load : load_config letters (λ name. none) ≡ accept defaults
unfolding load_config get_int get_bool
defaults_load = refl

abbrev offline : Settings
offline = record {
  enabled = false;
  check_timeout_seconds = 3;
  disconnect_delay = 5;
  recovery_delay = 10;
}

abbrev shown : HealthSettings
shown = record {
  odoo_enabled = false;
  api_enabled = true;
  heartbeat_seconds = 60;
  ready_enabled = true;
  ready_check_timeout = 3;
}

abbrev no_messages : Messages
no_messages = record { rows = []; next_id = 1 }

abbrev status : DatabaseStatus
status = fresh_status (pos 30) true (record {
  now = 7;
  stored_at = 8;
  file = record { size_bytes = 4096; page_count = 1; page_size = 4096; freelist_count = 0 };
  lifecycle = none;
  tables = record {
    database = record { messages = no_messages; production = no_production };
    commands = record { rows = []; next_id = 1 };
  };
})

monitor_is_off : offline.enabled ≡ (create_readiness_monitor defaults).enabled
unfolding create_readiness_monitor
monitor_is_off = refl

offline_is_ok_example :
    (create_odoo_worker defaults true ≡ none)
    × ((health shown true
          (worker_health shown none 7 no_messages)
          (readiness_health shown (some (snapshot offline 7 (run offline []))))
          status).status
        ≡ status_ok)
offline_is_ok_example =
    offline_is_ok defaults offline [] shown true status 7 no_messages refl monitor_is_off refl

-- serving the API fails
abbrev raises : Call → Bool
raises c = is_start api_server c

all_closes :
    Returns raises
      (in_finally (create_odoo_worker defaults true) (create_readiness_monitor defaults).client)
unfolding create_odoo_worker create_readiness_monitor
all_closes = (refl, (refl, (refl, (refl, tt))))

all_begins : Returns raises (before_try (create_odoo_worker defaults true))
unfolding create_odoo_worker
all_begins = (refl, (refl, (refl, (refl, tt))))

mqtt_starts : any (is_start mqtt_client) (main defaults raises) ≡ true
unfolding main create_odoo_worker create_readiness_monitor perform
mqtt_starts = refl
