-- ===== src/Examples.antt =====
-- The properties at concrete inputs.
mod Samples
mod Policies
mod Programs
mod Frames
mod Calls
mod Sessions
mod Pools
mod Clients
mod Receives
mod Handlers
mod Platform
mod Records
mod Volumes
mod Sockets
