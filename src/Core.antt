-- ===== src/Core.antt =====
-- core/: transactions, blocks, genesis and the chain.
pub mod Types
pub mod Blocks
pub mod Chain
pub mod Views
pub mod Linked
pub mod Balances
pub mod Insert
pub mod Judged
pub mod Payments
pub mod Started
pub mod Genesis
pub mod Examples
mod Tests
