-- ===== src/Worker.antt =====
-- worker/jobs.py and worker/main.py: the worker; engine/active.py: the engine it calls.
pub mod Promote
pub mod Run
pub mod Process
pub mod Groups
pub mod Untouched
pub mod Settling
pub mod Stuck
pub mod Active
pub mod MlpEngine
pub mod GbdtEngine
