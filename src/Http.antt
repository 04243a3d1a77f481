-- ===== src/Http.antt =====
-- http.py: the responses that carry validated markup.
pub mod Body
pub mod Commit
pub mod Assign
