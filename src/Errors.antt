-- ===== src/Errors.antt =====
-- The error model: errors/.
pub mod Codes
pub mod Class
pub mod Registry
pub mod New
pub mod Decide
