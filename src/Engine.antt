-- ===== src/Engine.antt =====
-- ocsp_tester: the test engine.
pub mod Runner
pub mod Selection
