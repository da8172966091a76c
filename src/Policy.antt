-- ===== src/Policy.antt =====
-- What tools may do: internal/pathglob/ and executionpolicy/.
pub mod PathGlob
pub mod FilePolicy
pub mod ToolRegistry
pub mod ToolPolicy
