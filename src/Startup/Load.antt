-- ===== src/Startup/Load.antt =====
-- What `load_config` of app/config.py has to make of the environment: the variables in the order in which
-- they are read, with their defaults, and the words of the Booleans.
use blackbear_edge_bridge.Prelude.{
  ◌≡◌, inl, inr, refl, String, Bool, true, false, Option, none, some, List, [], ◌∷◌, ℤ, pos, ◌==◌,
  Bool-cases, if◌then◌else◌, column, arith,
}
use blackbear_edge_bridge.Errors.{Checked, accept, reject}
use blackbear_edge_bridge.Text.{strip}
use blackbear_edge_bridge.Startup.Read.{
  ConfigError, must_be_an_integer, must_be_a_boolean, Letters, Environment, int_of, integer_or,
  boolean_or, read_int, get_int, read_bool, get_bool,
}
use blackbear_edge_bridge.Startup.Config.{AppConfig, text_or}

pub data Variable : Type 0 where
  integer : String → ℤ → Variable
  boolean : String → Bool → Variable

pub data Value : Type 0 where
  number : ℤ → Value
  flag : Bool → Value

abbrev pub variables : List Variable
variables =
    integer "MQTT_PORT" (pos 1883)
    ∷ integer "MQTT_KEEPALIVE" (pos 60)
    ∷ boolean "ODOO_ENABLED" false
    ∷ integer "ODOO_TIMEOUT" (pos 90)
    ∷ integer "ODOO_WORKER_INTERVAL" (pos 2)
    ∷ integer "ODOO_BATCH_SIZE" (pos 10)
    ∷ integer "ODOO_MAX_RETRIES" (pos 10)
    ∷ integer "ODOO_STALE_PROCESSING_SECONDS" (pos 300)
    ∷ integer "ODOO_WORKER_HEARTBEAT_SECONDS" (pos 60)
    ∷ boolean "BEB_API_ENABLED" false
    ∷ integer "BEB_API_PORT" (pos 8000)
    ∷ integer "BEB_API_REQUEST_TIMEOUT" (pos 10)
    ∷ integer "BEB_API_IDEMPOTENCY_TTL_SECONDS" (pos 86400)
    ∷ integer "BEB_API_MAX_BODY_BYTES" (pos 16384)
    ∷ boolean "BEB_API_LOG_REQUEST_BODY" true
    ∷ boolean "BEB_READY_ENABLED" true
    ∷ integer "BEB_READY_CHECK_INTERVAL_SECONDS" (pos 30)
    ∷ integer "BEB_READY_CHECK_TIMEOUT_SECONDS" (pos 3)
    ∷ integer "BEB_READY_AUTH_REVALIDATE_SECONDS" (pos 300)
    ∷ integer "BEB_READY_DISCONNECT_DELAY_SECONDS" (pos 5)
    ∷ integer "BEB_READY_RECOVERY_DELAY_SECONDS" (pos 10)
    ∷ integer "SQLITE_RAW_RETENTION_DAYS" (pos 30)
    ∷ boolean "SQLITE_CLEANUP_ENABLED" true
    ∷ integer "SQLITE_CLEANUP_INTERVAL_HOURS" (pos 24)
    ∷ integer "SQLITE_CLEANUP_BATCH_SIZE" (pos 1000)
    ∷ boolean "SQLITE_VACUUM_ENABLED" false
    ∷ integer "SQLITE_RECONCILE_BATCH_SIZE" (pos 100)
    ∷ []

-- the fields that these variables set
abbrev pub values_of : AppConfig → List Value
values_of c =
    number c.mqtt_port
    ∷ number c.mqtt_keepalive
    ∷ flag c.odoo_enabled
    ∷ number c.odoo_timeout
    ∷ number c.odoo_worker_interval
    ∷ number c.odoo_batch_size
    ∷ number c.odoo_max_retries
    ∷ number c.odoo_stale_processing_seconds
    ∷ number c.odoo_worker_heartbeat_seconds
    ∷ flag c.beb_api_enabled
    ∷ number c.beb_api_port
    ∷ number c.beb_api_request_timeout
    ∷ number c.beb_api_idempotency_ttl_seconds
    ∷ number c.beb_api_max_body_bytes
    ∷ flag c.beb_api_log_request_body
    ∷ flag c.beb_ready_enabled
    ∷ number c.beb_ready_check_interval_seconds
    ∷ number c.beb_ready_check_timeout_seconds
    ∷ number c.beb_ready_auth_revalidate_seconds
    ∷ number c.beb_ready_disconnect_delay_seconds
    ∷ number c.beb_ready_recovery_delay_seconds
    ∷ number c.sqlite_raw_retention_days
    ∷ flag c.sqlite_cleanup_enabled
    ∷ number c.sqlite_cleanup_interval_hours
    ∷ number c.sqlite_cleanup_batch_size
    ∷ flag c.sqlite_vacuum_enabled
    ∷ number c.sqlite_reconcile_batch_size
    ∷ []

-- the variables that are kept as they are
abbrev pub text_variables : List (String × String)
text_variables =
    ("MQTT_HOST", "localhost")
    ∷ ("MQTT_PLC_TO_ODOO_TOPIC", "MQTT/PLC_TO_ODOO/topic")
    ∷ ("MQTT_ODOO_TO_PLC_TOPIC", "MQTT/ODOO_TO_PLC/topic")
    ∷ ("DATABASE_PATH", "data/bridge.db")
    ∷ ("ODOO_URL", "https://test-bbw.odoo.com")
    ∷ ("ODOO_DATABASE", "broadtechit-test-bbw-stage-34933250")
    ∷ ("ODOO_USERNAME", "admin")
    ∷ ("ODOO_PASSWORD", "")
    ∷ ("ODOO_MODEL", "iot.configuration")
    ∷ ("ODOO_SUBMIT_METHOD", "xmlrpc_submit_print_data")
    ∷ ("BEB_API_HOST", "127.0.0.1")
    ∷ ("BEB_API_USERNAME", "odoo")
    ∷ ("BEB_API_PASSWORD", "")
    ∷ ("BEB_READY_TOPIC", "MQTT/ODOO_TO_PLC/topic")
    ∷ []

abbrev pub texts_of : AppConfig → List String
texts_of c =
    c.mqtt_client_id ∷ c.machine_id ∷ c.log_level ∷ c.mqtt_host ∷ c.mqtt_plc_to_odoo_topic
    ∷ c.mqtt_odoo_to_plc_topic ∷ c.database_path ∷ c.odoo_url ∷ c.odoo_database ∷ c.odoo_username
    ∷ c.odoo_password ∷ c.odoo_model ∷ c.odoo_submit_method ∷ c.beb_api_host ∷ c.beb_api_username
    ∷ c.beb_api_password ∷ c.beb_ready_topic ∷ []

abbrev pub words : List (String × Bool)
words =
    ("true", true)
    ∷ ("1", true)
    ∷ ("yes", true)
    ∷ ("on", true)
    ∷ ("false", false)
    ∷ ("0", false)
    ∷ ("no", false)
    ∷ ("off", false)
    ∷ []

abbrev pub meaning : List (String × Bool) → String → Option Bool
meaning [] s = none
meaning ((word, b) ∷ ws) s = if s == word then some b else meaning ws s

-- unset or blank is the default
abbrev pub unless_blank : {A : Type 0} → A → (String → Option A) → Option String → Option A
unless_blank default f none = some default
unless_blank default f (some raw) = if strip raw == "" then some default else f raw

abbrev pub named : {A : Type 0} → (A → Value) → Option A → Option Value
named value none = none
named value (some a) = some (value a)

abbrev pub error_of : Variable → ConfigError
error_of (integer name default) = must_be_an_integer name
error_of (boolean name default) = must_be_a_boolean name

abbrev pub then_rest :
    ConfigError → Option Value → Checked ConfigError (List Value) → Checked ConfigError (List Value)
then_rest e none rest = reject e
then_rest e (some value) (reject e') = reject e'
then_rest e (some value) (accept values) = accept (value ∷ values)

abbrev pub or_reject : {A : Type 0} → ConfigError → Option A → Checked ConfigError A
or_reject e none = reject e
or_reject e (some a) = accept a

module _ (letters : Letters) (env : Environment) where
  abbrev pub word_of : String → Option Bool
  word_of raw = meaning words (letters.lower (strip raw))

  abbrev pub value_of : Variable → Option Value
  value_of (integer name default) = named number (unless_blank default (int_of letters) (env name))
  value_of (boolean name default) = named flag (unless_blank default word_of (env name))

  -- the values of variables, or the error of the first that cannot be read
  unfoldable pub read_all : List Variable → Checked ConfigError (List Value)
  read_all [] = accept []
  read_all (v ∷ vs) = then_rest (error_of v) (value_of v) (read_all vs)

  abbrev pub text_of : String × String → String
  text_of (name, default) = text_or default (env name)

  -- the texts: the machine is named by the MQTT client when it has no name
  abbrev pub texts : List String
  texts =
      let client = text_of ("MQTT_CLIENT_ID", "BLACKBEAR_PYTHON_BRIDGE_DEV") in
      client
      ∷ text_of ("BEB_MACHINE_ID", client)
      ∷ letters.upper (text_of ("LOG_LEVEL", "INFO"))
      ∷ column text_of text_variables

  pub get_int-eq :
      (name : String) (default : ℤ)
      → get_int letters env name default
        ≡ or_reject (must_be_an_integer name) (unless_blank default (int_of letters) (env name))
  unfolding get_int
  get_int-eq name default = by_text (env name)
    where
      by_value : (v : Option ℤ) → integer_or letters name v ≡ or_reject (must_be_an_integer name) v
      by_value none = refl
      by_value (some n) = refl

      by_text :
          (o : Option String)
          → read_int letters name default o
            ≡ or_reject (must_be_an_integer name) (unless_blank default (int_of letters) o)
      by_text none = refl
      by_text (some raw) = elim (Bool-cases (strip raw == "")) [
        | inl b ↦ rw b refl
        | inr b ↦ rw b (by_value (int_of letters raw))
      ]

  -- the two lists of words of the code, against the words
  boolean_or-eq :
      (name s : String)
      → boolean_or letters name s ≡ or_reject (must_be_a_boolean name) (meaning words s)
  boolean_or-eq name s = ground arith

  pub get_bool-eq :
      (name : String) (default : Bool)
      → get_bool letters env name default
        ≡ or_reject (must_be_a_boolean name) (unless_blank default word_of (env name))
  unfolding get_bool
  get_bool-eq name default = by_text (env name)
    where
      by_text :
          (o : Option String)
          → read_bool letters name default o
            ≡ or_reject (must_be_a_boolean name) (unless_blank default word_of o)
      by_text none = refl
      by_text (some raw) = elim (Bool-cases (strip raw == "")) [
        | inl b ↦ rw b refl
        | inr b ↦ rw b (boolean_or-eq name (letters.lower (strip raw)))
      ]
