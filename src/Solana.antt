-- ===== src/Solana.antt =====
-- packages/solana: payment channels, their vouchers, and the settlement of a task on chain.
pub mod Types
pub mod Explorer
pub mod Finalization
pub mod Voucher
pub mod Live
