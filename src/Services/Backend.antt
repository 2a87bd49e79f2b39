-- ===== src/Services/Backend.antt =====
-- A reference model of the services: what Redis and PostgreSQL document that the calls do while
-- they can be reached, on values that respect the types of the columns. No definition here models
-- code of the repository; `Lawful` states the hypothesis that a world behaves like this one.
mod State
mod Cache
mod Tables
pub use State.*
unfoldable pub use Cache.*
unfoldable pub use Tables.*
