-- ===== src/Certificate.antt =====
-- Package certificate: the certificates that are installed on a device.
pub mod Datastore
pub mod Statement
pub mod Atomic
