-- ===== src/Management.antt =====
-- Package management: the API of the administrator.
pub mod Service
pub mod Endpoint
pub mod Shape
pub mod Transport
pub mod Routes
pub mod Replies
pub mod Missing
pub mod Matching
pub mod Inventory
pub mod Conflict
