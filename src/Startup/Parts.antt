-- ===== src/Startup/Parts.antt =====
-- `create_odoo_worker`, `create_readiness_monitor` and `main` of app/main.py. `main` is the list of the
-- calls that it makes after the configuration is loaded; which calls raise is a parameter, and the
-- constructors raise nothing. Ctrl+C ends the wait.
use blackbear_edge_bridge.Prelude.{
  String, Bool, true, false, ◌&&◌, not, Option, none, some, List, [], ◌∷◌, ◌++◌, ℤ, if◌then◌else◌,
}
use blackbear_edge_bridge.Odoo.Client.{OdooClientSettings}
use blackbear_edge_bridge.Worker.Process.{WorkerSettings}
use blackbear_edge_bridge.Startup.Config.{AppConfig}

-- OdooQueueWorker, with its client; `submission_timeout or ...` is the timeout of the client in any case
pub record OdooWorker : Type 0 where
  pub client : OdooClientSettings
  pub settings : WorkerSettings
  pub worker_interval : ℤ
  pub batch_size : ℤ
  pub stale_processing_timeout : ℤ
  pub submission_timeout : ℤ

abbrev pub odoo_settings : AppConfig → ℤ → OdooClientSettings
odoo_settings config timeout = record {
  url = config.odoo_url;
  database = config.odoo_database;
  username = config.odoo_username;
  password = config.odoo_password;
  model = config.odoo_model;
  submit_method = config.odoo_submit_method;
  timeout = timeout;
}

abbrev pub odoo_worker : AppConfig → Bool → OdooWorker
odoo_worker config has_publisher = record {
  client = odoo_settings config config.odoo_timeout;
  settings = record {
    max_retries = config.odoo_max_retries;
    machine_id = config.machine_id;
    has_publisher = has_publisher;
  };
  worker_interval = config.odoo_worker_interval;
  batch_size = config.odoo_batch_size;
  stale_processing_timeout = config.odoo_stale_processing_seconds;
  submission_timeout = config.odoo_timeout;
}

unfoldable pub create_odoo_worker : AppConfig → Bool → Option OdooWorker
create_odoo_worker config has_publisher =
    if not config.odoo_enabled then none else some (odoo_worker config has_publisher)

-- ReadinessMonitor, with the client of its check; without a client the check answers no
pub record MonitorParts : Type 0 where
  pub enabled : Bool
  pub check_interval_seconds : ℤ
  pub check_timeout_seconds : ℤ
  pub disconnect_delay_seconds : ℤ
  pub recovery_delay_seconds : ℤ
  pub topic : String
  pub client : Option OdooClientSettings

abbrev pub monitor_parts : AppConfig → Bool → Option OdooClientSettings → MonitorParts
monitor_parts config enabled client = record {
  enabled = enabled;
  check_interval_seconds = config.beb_ready_check_interval_seconds;
  check_timeout_seconds = config.beb_ready_check_timeout_seconds;
  disconnect_delay_seconds = config.beb_ready_disconnect_delay_seconds;
  recovery_delay_seconds = config.beb_ready_recovery_delay_seconds;
  topic = config.beb_ready_topic;
  client = client;
}

unfoldable pub create_readiness_monitor : AppConfig → MonitorParts
create_readiness_monitor config =
    if not (config.beb_ready_enabled && config.odoo_enabled)
    then monitor_parts config false none
    else monitor_parts config true
        (some (odoo_settings config config.beb_ready_check_timeout_seconds))

pub data Part : Type 0 where
  sqlite_lifecycle worker mqtt_client readiness_monitor api_server : Part

pub data Call : Type 0 where
  configures_logging initialize_database initialize_api_commands_table : Call
  starts stops : Part → Call
  waits : Call
  close_odoo_client close_readiness_client : Call

-- the calls that are made up to the first that raises, and whether one raises
unfoldable pub perform : (Call → Bool) → List Call → List Call × Bool
perform raises [] = ([], false)
perform raises (c ∷ cs) =
    let (made, raised) = perform raises cs in
    if raises c then (c ∷ [], true) else (c ∷ made, raised)

abbrev pub when {ℓ} : {A : Type ℓ} → Option A → Call → List Call
when none c = []
when (some a) c = c ∷ []

-- what precedes `try`; the worker is started when there is one
abbrev pub before_try : Option OdooWorker → List Call
before_try w =
    configures_logging
    ∷ initialize_database
    ∷ initialize_api_commands_table
    ∷ starts sqlite_lifecycle
    ∷ when w (starts worker)

abbrev pub in_try : List Call
in_try = starts mqtt_client ∷ starts readiness_monitor ∷ starts api_server ∷ waits ∷ []

abbrev pub in_finally : Option OdooWorker → Option OdooClientSettings → List Call
in_finally w readiness_client =
    stops readiness_monitor
    ∷ stops api_server
    ∷ stops sqlite_lifecycle
    ∷ (when w (stops worker)
        ++ (stops mqtt_client
            ∷ (when w close_odoo_client ++ when readiness_client close_readiness_client)))

unfoldable pub main : AppConfig → (Call → Bool) → List Call
main config raises =
    let w = create_odoo_worker config true in
    let monitor = create_readiness_monitor config in
    let (made, raised) = perform raises (before_try w) in
    if raised
    then made
    else made ++ ((perform raises in_try).0 ++ (perform raises (in_finally w monitor.client)).0)
