-- ===== src/Tests.antt =====
-- The theorems at concrete inputs.
mod Data
mod Queue
mod Enrollment
mod Services
mod Inventory
mod Fetch
mod Web
mod Http
mod Wire
mod Enroll
mod System
mod Startup
mod Workflow
