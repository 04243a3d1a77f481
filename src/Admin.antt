-- ===== src/Admin.antt =====
-- contrib/database/admin_validation.py: the static check of a draft in the admin.
pub mod Scanner
pub mod Mask
pub mod Declarations
pub mod Template
