-- ===== src/Worker.antt =====
-- The queue worker: app/queue_worker.py.
pub mod Response
pub mod Submission
pub mod Process
pub mod Outcome
pub mod Decisive
pub mod Round
pub mod Terminate
pub mod Settled
pub mod Pass
pub mod Claimed
pub mod Whole
pub mod Child
mod Examples
mod ChildExamples
