-- ===== src/Flow.antt =====
-- lumo/flow.py and lumo/chain/mapper.py: an intent's way through escrow, attestation and release,
-- over any chain adapter. The state is the repository and the adapter's own state.
pub mod Steps
pub mod Trace
pub mod Execute
pub mod Settle
pub mod Release
pub mod Paid
