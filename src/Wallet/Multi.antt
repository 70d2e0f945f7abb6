-- ===== src/Wallet/Multi.antt =====
-- internal/wallet/multi_address_tx.go: transactions that spend outputs of several addresses. The
-- sizes of transactions are int64 in the source and stay far below its bound.
use Prim.Native.String.{len}
use klingdex.Prelude.{
  ℕ, ◌+◌, ◌-◌, ◌*◌, String, Option, List, [], ◌∷◌, ltb, leb, if◌then◌else◌, length, Result, ok,
  ◌>>=◌, ◌>>◌, guard, str_eq, not, is_empty,
}
use klingdex.Chain
use klingdex.Chain.{Network, Params}
use klingdex.Utxos.Sort.{sort_utxos}
use klingdex.Utxos.Greedy.{select_loop}
use klingdex.Swap.HtlcScript.{of_option}
use klingdex.Swap.Funding.{Tx, u64}
use klingdex.Wallet.Single.{
  WalletError, unsupported_chain, no_utxos, insufficient_funds, invalid_tx_id, invalid_address,
  signing_failed, sub_u64, has_taproot_prefix, has_seg_wit_prefix, has_tx_params,
}

-- `AddressUTXO`; the cached script is left out, as no function here reads it.
pub record AddressUtxo : Type 0 where
  pub tx_id : String
  pub vout : ℕ
  pub amount : ℕ
  pub address : String
  pub account : ℕ
  pub change : ℕ
  pub address_index : ℕ
  pub address_type : String

abbrev pub amount_of : AddressUtxo → ℕ
amount_of u = u.amount

-- The `switch` on the address type, which the source writes three times.
unfoldable pub input_size : AddressUtxo → ℕ
input_size u =
    if str_eq u.address_type "p2tr" then 58 else (if str_eq u.address_type "p2pkh" then 148 else 68)

unfoldable pub sum_of_sizes : List AddressUtxo → ℕ
unfolding input_size
sum_of_sizes [] = 0
sum_of_sizes (u ∷ us) = input_size u + sum_of_sizes us

unfoldable pub calculate_inputs_fee : List AddressUtxo → ℕ → ℕ
unfolding sum_of_sizes
calculate_inputs_fee us rate = u64 (sum_of_sizes us * rate)

unfoldable pub multi_need : ℕ → ℕ → List AddressUtxo → ℕ
unfolding calculate_inputs_fee
multi_need target rate selected =
    u64 (target + u64 (u64 (72 * rate) + calculate_inputs_fee selected rate))

unfoldable pub select_address_utxos :
    List AddressUtxo → ℕ → ℕ → Result WalletError (List AddressUtxo × ℕ)
select_address_utxos utxos target rate = do
  guard (not (is_empty utxos)) no_utxos
  of_option insufficient_funds
      (select_loop amount_of (multi_need target rate) (sort_utxos amount_of utxos) [] 0)

unfoldable pub estimate_output_size : String → ℕ
unfolding has_taproot_prefix has_seg_wit_prefix
estimate_output_size a =
    if ltb (len a) 4
    then 34
    else (if has_taproot_prefix a then 43 else (if has_seg_wit_prefix a then 31 else 34))

unfoldable pub estimate_v_size : List AddressUtxo → String → String → ℕ
unfolding sum_of_sizes estimate_output_size
estimate_v_size us dest change =
    10
    + sum_of_sizes us
    + estimate_output_size dest
    + (if str_eq change "" then 0 else estimate_output_size change)

pub record MultiAddressTxParams : Type 0 where
  pub utxos : List AddressUtxo
  pub to_address : String
  pub amount : ℕ
  pub change_address : String
  pub fee_rate : ℕ
  pub symbol : String
  pub network : Network

pub record MultiAddressTxResult : Type 0 where
  pub tx_hex : String
  pub tx_id : String
  pub fee : ℕ
  pub total_input : ℕ
  pub total_output : ℕ
  pub change : ℕ
  pub input_count : ℕ
  pub output_count : ℕ
  pub used_utxos : List (String × ℕ)
  pub virtual_size : ℕ

pub record SendMaxParams : Type 0 where
  pub utxos : List AddressUtxo
  pub to_address : String
  pub fee_rate : ℕ
  pub symbol : String
  pub network : Network

unfoldable pub sum_of_amounts : List AddressUtxo → ℕ → ℕ
sum_of_amounts [] acc = acc
sum_of_amounts (u ∷ us) acc = sum_of_amounts us (u64 (acc + u.amount))

-- `CalculateMaxSendAmount`: the amount and the fee.
unfoldable pub calculate_max_send_amount : SendMaxParams → Result WalletError (ℕ × ℕ)
unfolding sum_of_amounts sum_of_sizes estimate_output_size
calculate_max_send_amount p = do
  guard (not (is_empty p.utxos)) no_utxos
  let total = sum_of_amounts p.utxos 0
  let fee = u64 ((10 + sum_of_sizes p.utxos + estimate_output_size p.to_address) * p.fee_rate)
  guard (not (leb total fee)) insufficient_funds
  ok (total - fee, fee)

-- The source prints these pairs as texts.
used_outpoints : List AddressUtxo → List (String × ℕ)
used_outpoints [] = []
used_outpoints (u ∷ us) = (u.tx_id, u.vout) ∷ used_outpoints us

-- `parse_tx_id` and `to_script` read texts. `sign` reads the inputs' addresses, derives a key for
-- each input, signs it, and serializes to a text and an id.
module _ (parse_tx_id : String → Option (List ℕ)) (to_script : Params → String → Option (List ℕ))
    (sign : Tx → List AddressUtxo → Option (String × String)) where
  inputs_of : List AddressUtxo → Result WalletError (List (List ℕ × ℕ))
  inputs_of [] = ok []
  inputs_of (u ∷ us) = do
    h ← of_option invalid_tx_id (parse_tx_id u.tx_id)
    rest ← inputs_of us
    ok ((h, u.vout) ∷ rest)

  -- The change outputs, the change and the fee: change that is dust goes to the fee.
  split_change : Params → String → ℕ → ℕ → Result WalletError (List (List ℕ × ℕ) × ℕ × ℕ)
  split_change p a change fee =
      if ltb 546 change
      then (do s ← of_option invalid_address (to_script p a); ok ((s, change) ∷ [], change, fee))
      else ok ([], 0, u64 (fee + change))

  unfoldable pub build_and_sign_multi_address_tx :
      MultiAddressTxParams → Result WalletError MultiAddressTxResult
  unfolding select_address_utxos estimate_v_size split_change inputs_of used_outpoints
  build_and_sign_multi_address_tx p = do
    guard (not (is_empty p.utxos)) no_utxos
    c ← of_option unsupported_chain (Chain.get p.symbol p.network)
    guard (has_tx_params c) unsupported_chain
    (selected, total) ← select_address_utxos p.utxos p.amount p.fee_rate
    ins ← inputs_of selected
    dest ← of_option invalid_address (to_script c p.to_address)
    let size = estimate_v_size selected p.to_address p.change_address
    let fee = u64 ((size + 2) * p.fee_rate)
    (change_out, change, paid) ←
        split_change c p.change_address (sub_u64 (sub_u64 total p.amount) fee) fee
    let outs = (dest, p.amount) ∷ change_out
    (hex, id) ← of_option signing_failed (sign (record { inputs = ins; outputs = outs }) selected)
    ok (record {
      tx_hex = hex;
      tx_id = id;
      fee = paid;
      total_input = total;
      total_output = u64 (p.amount + change);
      change = change;
      input_count = length selected;
      output_count = length outs;
      used_utxos = used_outpoints selected;
      virtual_size = size;
    })

  unfoldable pub build_send_max_tx : SendMaxParams → Result WalletError MultiAddressTxResult
  unfolding calculate_max_send_amount build_and_sign_multi_address_tx
  build_send_max_tx p = do
    (most, _) ← calculate_max_send_amount p
    build_and_sign_multi_address_tx (record {
      utxos = p.utxos;
      to_address = p.to_address;
      amount = most;
      change_address = "";
      fee_rate = p.fee_rate;
      symbol = p.symbol;
      network = p.network;
    })
