-- ===== src/Enroll.antt =====
-- enroll/: the enrollment profile that a device downloads before it is managed.
pub mod Profile
pub mod Topic
pub mod Service
pub mod Transport
pub mod Unique
pub mod Links
