-- ===== src/Jobs.antt =====
-- The job table `erasure_jobs`: gateway/idempotency.py and worker/queue.py.
pub mod Table
pub mod Queue
pub mod Intake
pub mod Outcome
pub mod Requests
pub mod Claims
pub mod Steps
pub mod Records
pub mod Leases
pub mod Recovery
pub mod Holding
