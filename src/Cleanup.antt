-- ===== src/Cleanup.antt =====
-- The deletion of old rows (app/database.py) and its schedule (app/sqlite_lifecycle.py).
pub mod Delete
pub mod Outcomes
pub mod Bounded
pub mod Kept
pub mod First
pub mod Recount
pub mod Report
pub mod Lifecycle
pub mod Snapshots
mod Examples
