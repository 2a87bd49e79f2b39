-- ===== src/Connect.antt =====
-- Package connect: what a device reports, and its next command.
pub mod Service
pub mod Endpoint
pub mod Refinement
pub mod Transport
pub mod Replies
