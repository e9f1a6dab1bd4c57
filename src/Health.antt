-- ===== src/Health.antt =====
-- The health endpoint of app/api.py, with `get_database_status` of app/database.py and
-- `health_snapshot` of app/queue_worker.py.
pub mod Status
pub mod Endpoint
pub mod Caching
pub mod Degraded
mod Examples
