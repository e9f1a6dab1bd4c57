-- ===== src/Startup/Config.antt =====
-- `AppConfig` and `load_config` of app/config.py. A path is its text.
use blackbear_edge_bridge.Prelude.{String, Bool, true, false, Option, none, some, ℤ, pos}
use blackbear_edge_bridge.Errors.{Checked, accept, ◌>>=◌}
use blackbear_edge_bridge.Startup.Read.{ConfigError, Letters, Environment, get_int, get_bool}

pub record AppConfig : Type 0 where
  pub mqtt_host : String
  pub mqtt_port : ℤ
  pub mqtt_client_id : String
  pub mqtt_plc_to_odoo_topic : String
  pub mqtt_odoo_to_plc_topic : String
  pub mqtt_keepalive : ℤ
  pub database_path : String
  pub log_level : String
  pub odoo_enabled : Bool
  pub odoo_url : String
  pub odoo_database : String
  pub odoo_username : String
  pub odoo_password : String
  pub odoo_model : String
  pub odoo_submit_method : String
  pub odoo_timeout : ℤ
  pub odoo_worker_interval : ℤ
  pub odoo_batch_size : ℤ
  pub odoo_max_retries : ℤ
  pub odoo_stale_processing_seconds : ℤ
  pub odoo_worker_heartbeat_seconds : ℤ
  pub beb_api_enabled : Bool
  pub beb_api_host : String
  pub beb_api_port : ℤ
  pub beb_api_username : String
  pub beb_api_password : String
  pub beb_api_request_timeout : ℤ
  pub beb_api_idempotency_ttl_seconds : ℤ
  pub beb_api_max_body_bytes : ℤ
  pub beb_api_log_request_body : Bool
  pub beb_ready_enabled : Bool
  pub beb_ready_check_interval_seconds : ℤ
  pub beb_ready_check_timeout_seconds : ℤ
  pub beb_ready_auth_revalidate_seconds : ℤ
  pub beb_ready_disconnect_delay_seconds : ℤ
  pub beb_ready_recovery_delay_seconds : ℤ
  pub beb_ready_topic : String
  pub machine_id : String
  pub sqlite_raw_retention_days : ℤ
  pub sqlite_cleanup_enabled : Bool
  pub sqlite_cleanup_interval_hours : ℤ
  pub sqlite_cleanup_batch_size : ℤ
  pub sqlite_vacuum_enabled : Bool
  pub sqlite_reconcile_batch_size : ℤ

abbrev pub text_or : String → Option String → String
text_or default none = default
text_or default (some raw) = raw

-- os.getenv(name, default), which keeps a text that is blank
abbrev pub getenv : Environment → String → String → String
getenv env name default = text_or default (env name)

-- the variables are read in the order of the arguments; the first that cannot be read ends the start
unfoldable pub load_config : Letters → Environment → Checked ConfigError AppConfig
load_config letters env = do
  let mqtt_client_id = getenv env "MQTT_CLIENT_ID" "BLACKBEAR_PYTHON_BRIDGE_DEV"
  mqtt_port ← get_int letters env "MQTT_PORT" (pos 1883)
  mqtt_keepalive ← get_int letters env "MQTT_KEEPALIVE" (pos 60)
  odoo_enabled ← get_bool letters env "ODOO_ENABLED" false
  odoo_timeout ← get_int letters env "ODOO_TIMEOUT" (pos 90)
  odoo_worker_interval ← get_int letters env "ODOO_WORKER_INTERVAL" (pos 2)
  odoo_batch_size ← get_int letters env "ODOO_BATCH_SIZE" (pos 10)
  odoo_max_retries ← get_int letters env "ODOO_MAX_RETRIES" (pos 10)
  odoo_stale_processing_seconds ← get_int letters env "ODOO_STALE_PROCESSING_SECONDS" (pos 300)
  odoo_worker_heartbeat_seconds ← get_int letters env "ODOO_WORKER_HEARTBEAT_SECONDS" (pos 60)
  beb_api_enabled ← get_bool letters env "BEB_API_ENABLED" false
  beb_api_port ← get_int letters env "BEB_API_PORT" (pos 8000)
  beb_api_request_timeout ← get_int letters env "BEB_API_REQUEST_TIMEOUT" (pos 10)
  beb_api_idempotency_ttl_seconds ←
      get_int letters env "BEB_API_IDEMPOTENCY_TTL_SECONDS" (pos 86400)
  beb_api_max_body_bytes ← get_int letters env "BEB_API_MAX_BODY_BYTES" (pos 16384)
  beb_api_log_request_body ← get_bool letters env "BEB_API_LOG_REQUEST_BODY" true
  beb_ready_enabled ← get_bool letters env "BEB_READY_ENABLED" true
  beb_ready_check_interval_seconds ← get_int letters env "BEB_READY_CHECK_INTERVAL_SECONDS" (pos 30)
  beb_ready_check_timeout_seconds ← get_int letters env "BEB_READY_CHECK_TIMEOUT_SECONDS" (pos 3)
  beb_ready_auth_revalidate_seconds ←
      get_int letters env "BEB_READY_AUTH_REVALIDATE_SECONDS" (pos 300)
  beb_ready_disconnect_delay_seconds ←
      get_int letters env "BEB_READY_DISCONNECT_DELAY_SECONDS" (pos 5)
  beb_ready_recovery_delay_seconds ← get_int letters env "BEB_READY_RECOVERY_DELAY_SECONDS" (pos 10)
  sqlite_raw_retention_days ← get_int letters env "SQLITE_RAW_RETENTION_DAYS" (pos 30)
  sqlite_cleanup_enabled ← get_bool letters env "SQLITE_CLEANUP_ENABLED" true
  sqlite_cleanup_interval_hours ← get_int letters env "SQLITE_CLEANUP_INTERVAL_HOURS" (pos 24)
  sqlite_cleanup_batch_size ← get_int letters env "SQLITE_CLEANUP_BATCH_SIZE" (pos 1000)
  sqlite_vacuum_enabled ← get_bool letters env "SQLITE_VACUUM_ENABLED" false
  sqlite_reconcile_batch_size ← get_int letters env "SQLITE_RECONCILE_BATCH_SIZE" (pos 100)
  accept (record {
    mqtt_host = getenv env "MQTT_HOST" "localhost";
    mqtt_port = mqtt_port;
    mqtt_client_id = mqtt_client_id;
    mqtt_plc_to_odoo_topic = getenv env "MQTT_PLC_TO_ODOO_TOPIC" "MQTT/PLC_TO_ODOO/topic";
    mqtt_odoo_to_plc_topic = getenv env "MQTT_ODOO_TO_PLC_TOPIC" "MQTT/ODOO_TO_PLC/topic";
    mqtt_keepalive = mqtt_keepalive;
    database_path = getenv env "DATABASE_PATH" "data/bridge.db";
    log_level = letters.upper (getenv env "LOG_LEVEL" "INFO");
    odoo_enabled = odoo_enabled;
    odoo_url = getenv env "ODOO_URL" "https://test-bbw.odoo.com";
    odoo_database = getenv env "ODOO_DATABASE" "broadtechit-test-bbw-stage-34933250";
    odoo_username = getenv env "ODOO_USERNAME" "admin";
    odoo_password = getenv env "ODOO_PASSWORD" "";
    odoo_model = getenv env "ODOO_MODEL" "iot.configuration";
    odoo_submit_method = getenv env "ODOO_SUBMIT_METHOD" "xmlrpc_submit_print_data";
    odoo_timeout = odoo_timeout;
    odoo_worker_interval = odoo_worker_interval;
    odoo_batch_size = odoo_batch_size;
    odoo_max_retries = odoo_max_retries;
    odoo_stale_processing_seconds = odoo_stale_processing_seconds;
    odoo_worker_heartbeat_seconds = odoo_worker_heartbeat_seconds;
    beb_api_enabled = beb_api_enabled;
    beb_api_host = getenv env "BEB_API_HOST" "127.0.0.1";
    beb_api_port = beb_api_port;
    beb_api_username = getenv env "BEB_API_USERNAME" "odoo";
    beb_api_password = getenv env "BEB_API_PASSWORD" "";
    beb_api_request_timeout = beb_api_request_timeout;
    beb_api_idempotency_ttl_seconds = beb_api_idempotency_ttl_seconds;
    beb_api_max_body_bytes = beb_api_max_body_bytes;
    beb_api_log_request_body = beb_api_log_request_body;
    beb_ready_enabled = beb_ready_enabled;
    beb_ready_check_interval_seconds = beb_ready_check_interval_seconds;
    beb_ready_check_timeout_seconds = beb_ready_check_timeout_seconds;
    beb_ready_auth_revalidate_seconds = beb_ready_auth_revalidate_seconds;
    beb_ready_disconnect_delay_seconds = beb_ready_disconnect_delay_seconds;
    beb_ready_recovery_delay_seconds = beb_ready_recovery_delay_seconds;
    beb_ready_topic = getenv env "BEB_READY_TOPIC" "MQTT/ODOO_TO_PLC/topic";
    machine_id = getenv env "BEB_MACHINE_ID" mqtt_client_id;
    sqlite_raw_retention_days = sqlite_raw_retention_days;
    sqlite_cleanup_enabled = sqlite_cleanup_enabled;
    sqlite_cleanup_interval_hours = sqlite_cleanup_interval_hours;
    sqlite_cleanup_batch_size = sqlite_cleanup_batch_size;
    sqlite_vacuum_enabled = sqlite_vacuum_enabled;
    sqlite_reconcile_batch_size = sqlite_reconcile_batch_size;
  })
