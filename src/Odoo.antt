-- ===== src/Odoo.antt =====
-- The XML-RPC client of app/odoo_client.py: its session with Odoo, and what it sends.
pub mod Client
pub mod Submit
pub mod Calls
pub mod Trail
pub mod Granted
pub mod Runs
pub mod Failures
mod Examples
