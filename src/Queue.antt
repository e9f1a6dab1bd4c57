-- ===== src/Queue.antt =====
-- The message queue: table `mqtt_messages` of app/database.py and the functions over it.
pub mod Message
pub mod Save
pub mod Claim
pub mod Mark
pub mod Replay
pub mod WellFormed
pub mod Saving
pub mod Chosen
pub mod ClaimOrder
pub mod Lookup
pub mod Operations
pub mod Exhausted
pub mod Retries
pub mod Throttle
pub mod Recovery
pub mod Writers
mod Examples
