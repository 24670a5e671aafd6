-- ===== src/Chain.antt =====
-- lumo/chain: the adapter protocol (`Interface`), the in-process chain (`Mock`), the clients that
-- reach a network (`Soroban`, `SmartAccount`), and the adapters over them (`Adapter`).
mod Interface
pub mod Mock
pub mod Soroban
pub mod SmartAccount
pub mod Adapter
pub use Interface.{
  Kind, shipped, failed, InvokeResult, EnumValue, text, object, unrecognized, ChainStatus,
  ChainAdapter,
}
unfoldable pub use Interface.{variant_of}
