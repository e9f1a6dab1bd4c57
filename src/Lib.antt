-- ===== src/Lib.antt =====
-- BlackBear Edge Bridge: a verification library for the Python package `app`.
--
-- The bridge takes messages from PLCs over MQTT, stores them in SQLite, submits them to Odoo one at a
-- time, and gives the ACK of Odoo back to the PLC. A message is parsed (app/message_parser.py), saved in
-- the table `mqtt_messages` (app/database.py), claimed by the queue worker (app/queue_worker.py) and
-- marked completed or failed; a completed message is recorded in `production_records` and counted in
-- `daily_production_summary` (app/database.py). A watchdog recovers messages whose attempt was lost. The
-- readiness monitor (app/readiness.py) tells the PLC whether Odoo can be reached, and Odoo commands the
-- PLC through payloads that app/command_parser.py validates.
--
-- Files:
--   Prelude      numbers, lists as tables, and what SELECT, UPDATE and DELETE do to rows
--   Errors       exceptions as values, and the transactions of `_open_connection`
--   Time         stored timestamps, cut to whole seconds
--   Text, Json   Python's str methods on code points, and the values of the json module
--   Command      `validate_plc_command` of app/command_parser.py
--   Plc          `parse_plc_message` of app/message_parser.py
--   Queue        the operations on `mqtt_messages` of app/database.py: a table is the list of its rows
--                by id and the next id; an operation maps a table to an answer and a table
--   Production   `mark_completed`, the production tables and the reconciliation of app/database.py
--   Api          the table `api_commands` of app/database.py, and the authentication, the dashboard routes
--                and `plc_command` of app/api.py
--   Mqtt         `_on_message`, the replay of ACKs and the publishing of app/mqtt_client.py
--   Cleanup      `cleanup_raw_operational_data` of app/database.py and the manager that repeats it,
--                app/sqlite_lifecycle.py
--   Dashboard    the dashboard queries of app/database.py
--   Health       the health endpoint of app/api.py, with `get_database_status` of app/database.py and
--                `health_snapshot` of app/queue_worker.py
--   Odoo         the XML-RPC client of app/odoo_client.py: its session, and the list of the calls that
--                Odoo receives
--   Readiness    `ReadinessMonitor` of app/readiness.py, as a function of one check and the monitor
--   Worker       `_process_record`, `run_once`, the watchdog and the health test of app/queue_worker.py,
--                the child process with the client of Odoo in it, and its termination
--   Threads      start and stop of app/readiness.py, app/queue_worker.py, app/sqlite_lifecycle.py and
--                app/api_server.py: a step is a start, a stop, or a thread that begins or ends, in any
--                order
--   Startup      app/config.py, and the parts and the calls of `main` of app/main.py
--
-- Instants are counts of microseconds since the epoch and stored timestamps are counts of seconds, of
-- times after the epoch; the dashboard's filters, which compare texts, take the texts of timestamps and
-- dates as parameters. Strings are lists of code points. SHA-256, the json module, the Unicode tables
-- of digits and of case, the clock, the answers of Odoo, the failures of SQLite in a cleanup, the
-- rows of a reconciliation that raise, the child process and the publishers are parameters: a definition takes what they return; one call of the
-- API reads the clock once. SQLite's statements run in the order of the code, and each transaction is
-- one step; concurrent writers are sequences of such steps. No definition needs fuel: a submission tries
-- again once, and the other loops run over lists.
--
-- A start of a thread is one step, and threads are not ordered otherwise. The environment is the one
-- after `load_dotenv`, and which calls of `main` raise is a parameter.
--
-- Not modelled: logging, the connection of the MQTT client and the timeouts of the XML-RPC transports.
pub mod Prelude
pub mod Errors
pub mod Time
pub mod Text
pub mod Dashboard
pub mod Health
pub mod Json
pub mod Command
pub mod Plc
pub mod Queue
pub mod Production
pub mod Api
pub mod Cleanup
pub mod Mqtt
pub mod Odoo
pub mod Readiness
pub mod Worker
pub mod Threads
pub mod Startup
