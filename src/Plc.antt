-- ===== src/Plc.antt =====
-- PLC-to-Odoo messages: app/message_parser.py.
pub mod Parser
pub mod Ascii
pub mod Sound
pub mod RoundTrip
pub mod Compact
mod Examples
