-- ===== src/Wallet.antt =====
-- internal/wallet: the choice of outputs and the fees of transactions. Keys, addresses and
-- signatures are arguments.
pub mod Single
pub mod Multi
pub mod SendMax
pub mod Reserve
pub mod Scan
