-- ===== src/Listen.antt =====
-- The package listen: framed exchanges over authenticated local connections.
pub mod Wire
pub mod Stream
pub mod Refusal
pub mod Frame
pub mod Session
pub mod Pool
pub mod Client
pub mod Receive
pub mod FramedCall
pub mod Server
pub mod Admission
