-- ===== src/Startup.antt =====
-- How a server starts: the connections to its stores, its flags, and the sequence of main.go.
pub mod Outcome
pub mod Retry
pub mod Bounds
pub mod Stores
pub mod Flags
pub mod System
pub mod Main
pub mod Steps
pub mod Served
pub mod Ready
pub mod Configured
pub mod Unreachable
