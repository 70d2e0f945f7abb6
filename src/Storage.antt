-- ===== src/Storage.antt =====
-- internal/storage: the tables of the wallet, of orders and of trades. Each statement is a function
-- on the list of a table's rows, `now` is the clock, and a failure of the database itself is left
-- out. A column that may be NULL is read as the zero value where the source does so.
pub mod Utxos
pub mod Addresses
pub mod Orders
pub mod Trades
pub mod Secrets
pub mod Swaps
pub mod SwapLegs
