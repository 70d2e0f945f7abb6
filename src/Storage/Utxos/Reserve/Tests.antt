-- ===== src/Storage/Utxos/Reserve/Tests.antt =====
-- Three outputs of one chain.
use klingdex.Prelude.{ℕ, String, ◌≡◌, refl, List, [], ◌∷◌}
use klingdex.Storage.Utxos.{
  WalletUtxo, UtxoStatus, unconfirmed, confirmed, get_spendable_utxos, get_total_balance,
  get_balance_by_status,
}
use klingdex.Utxos.Sort.{sum_of}
use klingdex.Storage.Utxos.Reserve.{get_total_balance-Spendable}

abbrev output : String → ℕ → UtxoStatus → WalletUtxo
output tx amount s = record {
  tx_id = tx;
  vout = 0;
  amount = amount;
  address = "bc1q";
  chain = "BTC";
  address_type = "p2wpkh";
  account = 0;
  change = 0;
  address_index = 0;
  script_pub_key = "";
  status = s;
  block_height = 0;
  block_hash = "";
  confirmations = 0;
  spent_tx_id = "";
  spent_at = 0;
  created_at = 0;
  updated_at = 0;
}

abbrev outputs : List WalletUtxo
outputs = output "aa" 5 confirmed ∷ output "bb" 7 confirmed ∷ output "cc" 9 unconfirmed ∷ []

get_total_balance-Spendable_example :
    (sum_of (λ u. u.amount) (get_spendable_utxos "BTC" outputs) ≡ 12) × (Path ℕ 12 12)
unfolding get_total_balance get_balance_by_status
get_total_balance-Spendable_example =
    get_total_balance-Spendable "BTC" outputs {n = 12} {c = 12} {u = 9} {p = 0} refl refl
