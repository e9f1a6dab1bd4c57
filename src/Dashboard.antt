-- ===== src/Dashboard.antt =====
-- The dashboard queries and the database status: app/database.py.
pub mod Query
pub mod Newest
pub mod Totals
pub mod Days
mod Examples
