-- ===== src/Threads.antt =====
-- The threads that the parts start and stop: app/queue_worker.py, app/readiness.py,
-- app/sqlite_lifecycle.py and app/api_server.py.
pub mod Loop
pub mod Single
pub mod Workers
pub mod OneWorker
pub mod Cleanups
pub mod Server
pub mod OneServer
mod Examples
