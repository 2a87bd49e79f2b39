-- ===== src/Command.antt =====
-- Package command: the queue of MDM commands of each device.
pub mod Datastore
pub mod Service
pub mod Refinement
pub mod Queue
pub mod Cycle
pub mod Laws
pub mod Endpoint
pub mod Transport
pub mod Replies
