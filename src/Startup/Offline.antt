-- ===== src/Startup/Offline.antt =====
-- What the bridge shows when Odoo is disabled: app/main.py, app/readiness.py and app/api.py.
use blackbear_edge_bridge.Prelude.{ℕ, ◌≡◌, ◌∙◌, refl, Bool, true, false, none, some, List, arith}
use blackbear_edge_bridge.Queue.Message.{Messages}
use blackbear_edge_bridge.Readiness.Monitor.{Settings, Check, run, snapshot}
use blackbear_edge_bridge.Health.Status.{DatabaseStatus}
use blackbear_edge_bridge.Health.Endpoint.{
  HealthSettings, worker_health, readiness_health, status_ok, health,
}
use blackbear_edge_bridge.Startup.Config.{AppConfig}
use blackbear_edge_bridge.Startup.Parts.{create_odoo_worker, create_readiness_monitor}

monitor_off :
    (config : AppConfig)
    → config.odoo_enabled ≡ false
    → (create_readiness_monitor config).enabled ≡ false
unfolding create_readiness_monitor
monitor_off config h = ground (arith, h)

-- With ODOO_ENABLED false, whatever BEB_READY_ENABLED is, there is no worker, the monitor that is made
-- is disabled, and after any checks the health status is "ok".
pub offline_is_ok :
    (config : AppConfig) (settings : Settings) (checks : List Check) (shown : HealthSettings)
    (mqtt_connected : Bool) (d : DatabaseStatus) (now : ℕ) (q : Messages)
    → config.odoo_enabled ≡ false
    → settings.enabled ≡ (create_readiness_monitor config).enabled
    → shown.odoo_enabled ≡ config.odoo_enabled
    → (create_odoo_worker config true ≡ none)
      × ((health shown mqtt_connected
            (worker_health shown none now q)
            (readiness_health shown (some (snapshot settings now (run settings checks))))
            d).status
          ≡ status_ok)
unfolding create_odoo_worker health readiness_health snapshot
offline_is_ok config settings checks shown mqtt_connected d now q off made reads =
    let disabled : settings.enabled ≡ false = made ∙ monitor_off config off in
    (rw off refl, rw (reads, off, disabled) refl)
