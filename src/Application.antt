-- ===== src/Application.antt =====
-- Package application: the applications that are installed on a device.
pub mod Datastore
pub mod Statement
