-- ===== src/Wallet/SendMax/Tests.antt =====
-- Two outputs of different addresses.
use klingdex.Prelude.{ℕ, String, ◌≡◌, refl, Option, some, List, [], ◌∷◌, arith, ok, err}
use klingdex.Swap.Funding.{Tx}
use klingdex.Chain.{Params}
use klingdex.Wallet.Single.{insufficient_funds}
use klingdex.Wallet.Multi.{
  AddressUtxo, SendMaxParams, MultiAddressTxResult, input_size, select_address_utxos,
  calculate_max_send_amount, build_send_max_tx,
}
use klingdex.Chain.{mainnet}
use klingdex.Wallet.SendMax.{build_send_max_tx-fails}

abbrev utxo : String → ℕ → AddressUtxo
utxo t n = record {
  tx_id = "aa";
  vout = 0;
  amount = n;
  address = "bc1q";
  account = 0;
  change = 0;
  address_index = 0;
  address_type = t;
}

abbrev params : SendMaxParams
params = record {
  utxos = utxo "p2wpkh" 30000 ∷ utxo "p2tr" 50000 ∷ [];
  to_address = "bc1qa";
  fee_rate = 10;
  symbol = "BTC";
  network = mainnet;
}

abbrev parse_any : String → Option (List ℕ)
parse_any _ = some (1 ∷ [])

abbrev script_any : Params → String → Option (List ℕ)
script_any _ _ = some (2 ∷ [])

abbrev sign_any : Tx → List AddressUtxo → Option (String × String)
sign_any _ _ = some ("hex", "id")

build_send_max_tx-fails_example :
    (select_address_utxos params.utxos 78330 params.fee_rate ≡ err insufficient_funds)
    × ((r : MultiAddressTxResult)
        → ¬ (build_send_max_tx parse_any script_any sign_any params ≡ ok r))
unfolding calculate_max_send_amount input_size
build_send_max_tx-fails_example =
    build_send_max_tx-fails parse_any script_any sign_any params {most = 78330} {fee = 1670}
      (omega arith) (omega arith) (omega arith, (omega arith, tt)) refl
