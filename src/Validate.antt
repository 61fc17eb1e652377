-- ===== src/Validate.antt =====
-- validate/: the authorization rules.
pub mod Changes
pub mod Auth
