-- ===== src/Worker.antt =====
-- backend/app/worker: the subprocess that runs the engine for one run.
pub mod Json
pub mod Analysis
pub mod Executor
pub mod Examples
pub mod Netguard
