-- ===== src/Swap.antt =====
-- internal/swap: the protocol of an atomic swap.
pub mod Types
pub mod State
pub mod Offer
pub mod Heights
pub mod Confirmations
pub mod Txscript
pub mod HtlcScript
pub mod Crypto
pub mod HtlcSession
pub mod Timelocks
pub mod Bech32
pub mod Taproot
pub mod Spending
pub mod Musig2Lib
pub mod Musig2
pub mod Funding
pub mod Secrets
pub mod Coordinator
