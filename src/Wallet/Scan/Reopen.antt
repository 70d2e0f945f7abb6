-- ===== src/Wallet/Scan/Reopen.antt =====
-- What a scan does to the outputs that are recorded already.
use klingdex.Prelude.{ℕ, ◌<◌, ◌≡◌, refl, String, some, List, [], ◌∷◌, arith}
use klingdex.Tables.{upsert, any_where-find, find-update_self}
use klingdex.Storage.Utxos.{
  WalletUtxo, confirmed, is_output, refreshed, save_wallet_utxo, get_wallet_utxo,
}
use klingdex.Wallet.Scan.{ScanBackend, BackendUtxo, scanned_utxo, save_all}

-- A scan that lists a confirmed output records it as one that can be spent, whatever its row said
-- before: that it is spent, or reserved by a transaction that the backend does not know of yet.
pub save_all-Reopens :
    (b : ScanBackend) (symbol hrp : String) (change now : ℕ) (a : String) (index : ℕ)
    (u : BackendUtxo) (rows : List WalletUtxo) {old : WalletUtxo}
    → get_wallet_utxo u.tx_id u.vout rows ≡ some old
    → 0 < u.confirmations
    → (r : WalletUtxo) × (get_wallet_utxo u.tx_id u.vout
          (save_all b symbol hrp change now a index (u ∷ []) rows)
        ≡ some r)
      × (r.status ≡ confirmed)
      × (r.spent_tx_id ≡ "")
      × (r.chain ≡ old.chain)
unfolding get_wallet_utxo save_all save_wallet_utxo upsert scanned_utxo
save_all-Reopens b symbol hrp change now a index u rows {old} h positive =
    let x = scanned_utxo b symbol hrp change now a index u in
    let found = any_where-find (is_output u.tx_id u.vout) rows h in
    let e = find-update_self (is_output u.tx_id u.vout) (refreshed now x) rows (λ r. refl) h in
    (refreshed now x old, rw found e, ground arith, refl, refl)
