-- ===== src/Config.antt =====
-- internal/config/config.go: coins, fees and timeouts.
pub mod Timeouts
pub mod DaoAddresses
pub mod Fees
pub mod Coins
