-- ===== src/Windows.antt =====
-- Windows: the verdicts on code that are kept for one process instance, and the binding of a pipe's
-- client.
pub mod Verdicts
