-- ===== src/Production.antt =====
-- The production records and their daily summaries: app/database.py.
pub mod Tables
pub mod Upsert
pub mod Complete
pub mod Balance
pub mod Applied
pub mod Marks
pub mod Reconcile
pub mod Recorded
pub mod Once
mod Examples
