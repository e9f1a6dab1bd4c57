-- ===== src/Startup.antt =====
-- The configuration and the start of the program: app/config.py and app/main.py.
pub mod Read
pub mod Numerals
pub mod Config
pub mod Load
pub mod Loaded
pub mod Parts
pub mod Shutdown
pub mod Offline
mod Examples
