-- ===== src/Tests.antt =====
-- Runs of the code on small inputs.
pub mod Data
pub mod Chain
pub mod Policy
pub mod Pipeline
pub mod Flow
pub mod Monitor
pub mod Network
pub mod Api
pub mod Tool
