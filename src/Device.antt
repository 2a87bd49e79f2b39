-- ===== src/Device.antt =====
-- Package device: the devices that are known to the server.
pub mod Model
pub mod Columns
pub mod Datastore
pub mod Refinement
pub mod Laws
pub mod Keeps
