-- ===== src/Wallet/Reserve/Tests.antt =====
-- Two outputs, of which a transaction spends one.
use klingdex.Prelude.{ℕ, String, ◌≡◌, refl, List, [], ◌∷◌, not}
use klingdex.Tables.{filter_where}
use klingdex.Wallet.Multi.{AddressUtxo}
use klingdex.Storage.Utxos.{WalletUtxo, UtxoStatus, confirmed, get_spendable_utxos}
use klingdex.Wallet.Reserve.{
  to_address_utxo, mark_utxos_spending, is_among, mark_utxos_spending-Reserves,
}

abbrev output : String → ℕ → UtxoStatus → WalletUtxo
output tx amount s = record {
  tx_id = tx;
  vout = 0;
  amount = amount;
  address = "bc1q";
  chain = "BTC";
  address_type = "p2wpkh";
  account = 0;
  change = 0;
  address_index = 0;
  script_pub_key = "";
  status = s;
  block_height = 0;
  block_hash = "";
  confirmations = 0;
  spent_tx_id = "";
  spent_at = 0;
  created_at = 0;
  updated_at = 0;
}

abbrev outputs : List WalletUtxo
outputs = output "aa" 5 confirmed ∷ output "bb" 7 confirmed ∷ []

abbrev inputs : List AddressUtxo
inputs = to_address_utxo (output "bb" 7 confirmed) ∷ []

mark_utxos_spending-Reserves_example :
    get_spendable_utxos "BTC" (mark_utxos_spending 1 inputs "dd" outputs).0
    ≡ filter_where (λ r. not (is_among inputs r)) (get_spendable_utxos "BTC" outputs)
unfolding mark_utxos_spending klingdex.Storage.Utxos.mark_utxo_pending_spend to_address_utxo
mark_utxos_spending-Reserves_example = mark_utxos_spending-Reserves 1 inputs "dd" "BTC" outputs refl
