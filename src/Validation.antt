-- ===== src/Validation.antt =====
-- validation.py: the checks that a template source and a rendered document have to pass.
pub mod Declarations
pub mod Encoding
pub mod Guard
pub mod Limits
pub mod Namespaces
pub mod Hxml
