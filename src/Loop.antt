-- ===== src/Loop.antt =====
-- The agent loop: loop/.
pub mod Run
pub mod Budget
pub mod Detector
pub mod Chat
pub mod Runner
pub mod Stream
pub mod Tests
