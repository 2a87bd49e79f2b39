-- ===== src/Main.antt =====
-- The server as main.go puts it together.
pub mod Server
pub mod Refinement
pub mod Queue
pub mod Drain
pub mod Enrollment
pub mod Columns
pub mod Unknown
pub mod Failure
pub mod Configuration
pub mod Authentication
pub mod Rows
pub mod Inventory
pub mod Fetch
pub mod Wire
pub mod Checkout
