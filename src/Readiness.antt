-- ===== src/Readiness.antt =====
-- The readiness monitor: app/readiness.py.
pub mod Monitor
pub mod Debounce
pub mod Announce
mod Examples
