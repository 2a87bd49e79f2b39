-- ===== src/Services.antt =====
-- The services that the program calls and does not implement, as interfaces over a world `W`, and
-- a reference model of their documented behaviour.
pub mod Redis
pub mod Sql
pub mod Schema
pub mod Backend
pub mod Lawful
pub mod Rows
