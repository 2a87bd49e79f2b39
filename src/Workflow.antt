-- ===== src/Workflow.antt =====
-- Package workflow: configuration profiles, and the workflows that group them.
pub mod Model
pub mod Datastore
pub mod Links
pub mod LinkRows
pub mod Tables
