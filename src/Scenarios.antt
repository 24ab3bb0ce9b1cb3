-- ===== src/Scenarios.antt =====
-- Concrete runs: each states what a theorem says of one small database or request.
pub mod Access
pub mod Commands
pub mod Processes
pub mod Removals
pub mod Applications
pub mod Failures
pub mod Files
pub mod Wakes
pub mod Services
pub mod Texts
