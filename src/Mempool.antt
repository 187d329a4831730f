-- ===== src/Mempool.antt =====
-- src/mempool: pending transactions, before they are on chain.
pub mod Call
pub mod Calldata
pub mod Arith
pub mod Gate
mod Examples
mod CalldataExamples
