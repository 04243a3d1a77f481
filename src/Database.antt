-- ===== src/Database.antt =====
-- contrib/database: templates that are stored in a table, keyed by the identity of their name.
pub mod Table
pub mod Services
pub mod Source
pub mod Signals
