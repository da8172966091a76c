-- ===== src/Security.antt =====
-- Security: security/.
pub mod AuditChain
pub mod Sandbox
pub mod Vault
