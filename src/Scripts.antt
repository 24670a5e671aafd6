-- ===== src/Scripts.antt =====
-- scripts: the demonstration database and the check of the policy account on the network.
pub mod SeedDemo
pub mod Enforcement
