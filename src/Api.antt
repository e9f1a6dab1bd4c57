-- ===== src/Api.antt =====
-- The command API: app/api.py, and the table `api_commands` of app/database.py.
pub mod Commands
pub mod Call
pub mod Handler
pub mod Answered
pub mod Idempotent
pub mod Publishing
pub mod Routes
pub mod Guarded
mod Examples
mod RouteExamples
