-- ===== src/Swap/Funding/Balance/Tests.antt =====
-- Three outputs that fund a swap.
use klingdex.Prelude.{ℕ, ◌+◌, ◌*◌, ◌≤◌, String, ◌≡◌, refl, Option, some, List, [], ◌∷◌, arith}
use klingdex.Chain
use klingdex.Chain.{Params}
use mathlib.Core.List.{Perm}
use klingdex.Utxos.Sort.{IsDescending, sum_of, sort_utxos}
use klingdex.Swap.Funding.{
  Utxo, FundingParams, Tx, amount_of, select_utxos, total_input, build_funding_tx, dust_threshold,
  estimated_v_size, funding_fee, output_if, inputs_of,
}
use klingdex.Chain.{mainnet}
use klingdex.Swap.Funding.Balance.{
  select_utxos-Selects, Selects, build_funding_tx-balance, unpaid_dao, paid_to,
}

abbrev utxo : ℕ → Utxo
utxo n = record { tx_id = "aa"; vout = 0; amount = n }

abbrev three : List Utxo
three = utxo 30000 ∷ utxo 50000 ∷ utxo 20000 ∷ []

abbrev params : FundingParams
params = record {
  symbol = "BTC";
  network = mainnet;
  utxos = three;
  change_address = "c";
  swap_address = "s";
  swap_amount = 60000;
  dao_address = "";
  dao_fee = 546;
  fee_rate = 10;
}

abbrev parse_any : String → Option (List ℕ)
parse_any _ = some (1 ∷ [])

abbrev script_any : Params → String → Option (List ℕ)
script_any _ _ = some (2 ∷ [])

abbrev funding_tx : Tx
funding_tx = record {
  inputs = (1 ∷ [], 0) ∷ (1 ∷ [], 0) ∷ (1 ∷ [], 0) ∷ [];
  outputs = (2 ∷ [], 60000) ∷ (2 ∷ [], 36324) ∷ [];
}

select_utxos-Selects_example :
    Perm (sort_utxos amount_of three) three
    × IsDescending amount_of (sort_utxos amount_of three)
    × Selects (sort_utxos amount_of three) 60000 10 (select_utxos three 60000 10)
select_utxos-Selects_example = select_utxos-Selects three 60000 10 (omega arith) (omega arith)

build_funding_tx-balance_example :
    (paid : ℕ) × (sum_of paid_to funding_tx.outputs + paid ≡ sum_of amount_of params.utxos)
    × (estimated_v_size params * params.fee_rate + unpaid_dao params ≤ paid)
    × (paid ≤ estimated_v_size params * params.fee_rate + unpaid_dao params + dust_threshold)
unfolding build_funding_tx Chain.get funding_fee estimated_v_size total_input inputs_of output_if
build_funding_tx-balance_example =
    build_funding_tx-balance parse_any script_any params {tx = funding_tx} (omega arith)
      (unfold estimated_v_size in omega arith) refl
