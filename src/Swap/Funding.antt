-- ===== src/Swap/Funding.antt =====
-- internal/swap/tx.go: `SelectUTXOs` and `BuildFundingTx`. Amounts and fees are uint64 and wrap.
-- Parsing a transaction id and turning an address into a script are arguments.
pub mod Balance
use klingdex.Prelude.{
  ℕ, ◌+◌, ◌-◌, ◌*◌, ◌%◌, ◌^◌, String, Bool, true, false, ◌&&◌, not, Option, none, some, List, [],
  ◌∷◌, ◌++◌, ltb, ◌==◌, if◌then◌else◌, length, str_eq, Result, ok, err, ◌>>=◌, ◌>>◌, guard,
  is_empty,
}
use klingdex.Chain
use klingdex.Chain.{Network, Params}
use klingdex.Utxos.Sort.{sort_utxos}
use klingdex.Utxos.Greedy.{select_loop}
use klingdex.Swap.HtlcScript.{of_option}

-- `backend.UTXO`; the script and the confirmations are not read here.
pub record Utxo : Type 0 where
  pub tx_id : String
  pub vout : ℕ
  pub amount : ℕ

pub data TxError : Type 0 where
  no_utxos insufficient_funds unsupported_chain invalid_tx_id invalid_address : TxError

abbrev pub amount_of : Utxo → ℕ
amount_of u = u.amount

abbrev pub u64 : ℕ → ℕ
u64 n = n % 2 ^ 64

-- `targetAmount + totalFee`: 96 bytes of overhead and outputs, and 58 for each input.
unfoldable pub select_need : ℕ → ℕ → List Utxo → ℕ
select_need target rate selected =
    u64 (target + u64 (u64 (96 * rate) + u64 (length selected * 58 * rate)))

unfoldable pub select_utxos : List Utxo → ℕ → ℕ → Result TxError (List Utxo × ℕ)
select_utxos utxos target rate = do
  guard (not (is_empty utxos)) no_utxos
  of_option insufficient_funds
      (select_loop amount_of (select_need target rate) (sort_utxos amount_of utxos) [] 0)

pub record FundingParams : Type 0 where
  pub symbol : String
  pub network : Network
  pub utxos : List Utxo
  pub change_address : String
  pub swap_address : String
  pub swap_amount : ℕ
  pub dao_address : String
  pub dao_fee : ℕ
  pub fee_rate : ℕ

-- An input spends an output of a transaction; an output pays an amount to a script. The amount, an
-- int64, is written as the uint64 with the same bits, which is what the source converts.
pub record Tx : Type 0 where
  pub inputs : List (List ℕ × ℕ)
  pub outputs : List (List ℕ × ℕ)

abbrev pub dust_threshold : ℕ
dust_threshold = 546

-- `for ... totalInput += utxo.Amount`
unfoldable pub total_input : List Utxo → ℕ → ℕ
total_input [] acc = acc
total_input (x ∷ xs) acc = total_input xs (u64 (acc + x.amount))

-- Whether the DAO output is there.
abbrev pub pays_dao : FundingParams → Bool
pays_dao p = not (p.dao_fee == 0) && not (str_eq p.dao_address "")

-- The estimate counts a DAO output wherever the fee is not zero.
unfoldable pub estimated_v_size : FundingParams → ℕ
estimated_v_size p = 10 + length p.utxos * 58 + 43 + (if p.dao_fee == 0 then 0 else 43) + 43

unfoldable pub funding_fee : FundingParams → ℕ
unfolding estimated_v_size
funding_fee p = u64 (estimated_v_size p * p.fee_rate)

module _ (parse_tx_id : String → Option (List ℕ))
    (to_script : Params → String → Option (List ℕ)) where
  inputs_of : List Utxo → Result TxError (List (List ℕ × ℕ))
  inputs_of [] = ok []
  inputs_of (u ∷ us) = do
    h ← of_option invalid_tx_id (parse_tx_id u.tx_id)
    rest ← inputs_of us
    ok ((h, u.vout) ∷ rest)

  -- An output if it is wanted; the address is read only then.
  output_if : Bool → Params → String → ℕ → Result TxError (List (List ℕ × ℕ))
  output_if false c a n = ok []
  output_if true c a n = do s ← of_option invalid_address (to_script c a); ok ((s, n) ∷ [])

  -- From the sum of the inputs to the change: the outputs paid so far are given.
  finish_tx :
      Params → FundingParams → List (List ℕ × ℕ) → List (List ℕ × ℕ) → ℕ → ℕ → Result TxError Tx
  finish_tx c p ins paid total spent = do
    guard (not (ltb total spent)) insufficient_funds
    change_out ← output_if (ltb dust_threshold (total - spent)) c p.change_address (total - spent)
    ok (record { inputs = ins; outputs = paid ++ change_out })

  pub build_funding_tx : FundingParams → Result TxError Tx
  unfolding finish_tx
  build_funding_tx p = do
    guard (not (is_empty p.utxos)) no_utxos
    c ← of_option unsupported_chain (Chain.get p.symbol p.network)
    ins ← inputs_of p.utxos
    swap_out ← output_if true c p.swap_address p.swap_amount
    dao_out ← output_if (pays_dao p) c p.dao_address p.dao_fee
    finish_tx c p ins (swap_out ++ dao_out) (total_input p.utxos 0)
        (u64 (u64 (p.swap_amount + p.dao_fee) + funding_fee p))
