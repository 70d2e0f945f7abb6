-- ===== src/Utxos.antt =====
-- Unspent outputs, and the choice of those that a transaction spends: the sorting and the greedy
-- loop that internal/swap/tx.go, internal/wallet/tx.go and internal/wallet/multi_address_tx.go
-- each write out.
pub mod Sort
pub mod Greedy
