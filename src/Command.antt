-- ===== src/Command.antt =====
-- Odoo-to-PLC commands: app/command_parser.py.
pub mod Validate
pub mod Exact
mod Examples
