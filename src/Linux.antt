-- ===== src/Linux.antt =====
-- The Linux half: the loopback binding over procfs, and the reading of procfs's text.
pub mod Loopback
pub mod Unix
pub mod Proc
pub mod Sandbox
