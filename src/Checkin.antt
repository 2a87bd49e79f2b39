-- ===== src/Checkin.antt =====
-- Package checkin: enrolment, new tokens and removal of a device.
pub mod Service
pub mod Endpoint
pub mod Refinement
pub mod Transport
pub mod Replies
