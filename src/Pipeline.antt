-- ===== src/Pipeline.antt =====
-- lumo/pipeline.py: the guard chain and the run of an invoice through it.
pub mod Amount
pub mod Guards
pub mod GuardChain
pub mod Findings
pub mod Run
pub mod Keeps
pub mod Verdict
pub mod Payment
pub mod Oracles
pub mod Answers
pub mod Settled
pub mod Total
pub mod Proposal
