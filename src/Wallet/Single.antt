-- ===== src/Wallet/Single.antt =====
-- internal/wallet/tx.go: `BuildAndSignTx`, for outputs of one address, and its change.
use klingdex.Prelude.{
  ℕ, ◌+◌, ◌-◌, ◌*◌, ◌%◌, ◌^◌, ◌≤◌, ◌<◌, String, Bool, true, ◌&&◌, ◌||◌, ◌≡◌, refl, ◌⊎◌, inl, inr,
  Option, some, List, [], ◌∷◌, arith, ltb, if◌then◌else◌, length, Result, ok, ◌>>=◌, ◌>>◌, guard,
  str_eq, not, is_empty,
}
use Prim.Native.String.{len}
use text.Mathlib.Text.{starts_with}
use klingdex.Chain.{Params}
use klingdex.Utxos.Sort.{sort_utxos}
use klingdex.Utxos.Greedy.{select_loop}
use klingdex.Swap.HtlcScript.{of_option}
use klingdex.Swap.Funding.{Utxo, Tx, amount_of, u64}

pub data WalletError : Type 0 where
  unsupported_chain no_utxos insufficient_funds invalid_tx_id invalid_address signing_failed :
      WalletError

-- Subtraction of uint64 numbers.
abbrev pub sub_u64 : ℕ → ℕ → ℕ
sub_u64 a b = (a + 2 ^ 64 - b % 2 ^ 64) % 2 ^ 64

unfoldable pub single_need : ℕ → ℕ → List Utxo → ℕ
single_need target rate selected =
    u64 (target + u64 (u64 (72 * rate) + u64 (length selected * 68 * rate)))

unfoldable pub select_utxos_for_amount : List Utxo → ℕ → ℕ → Option (List Utxo × ℕ)
select_utxos_for_amount utxos target rate =
    select_loop amount_of (single_need target rate) (sort_utxos amount_of utxos) [] 0

unfoldable pub has_taproot_prefix : String → Bool
has_taproot_prefix a =
    starts_with a "tb1p"
    || (starts_with a "bc1p" || (starts_with a "ltc1p" || starts_with a "tltc1p"))

unfoldable pub has_seg_wit_prefix : String → Bool
has_seg_wit_prefix a =
    starts_with a "tb1q"
    || (starts_with a "bc1q" || (starts_with a "ltc1q" || starts_with a "tltc1q"))

-- The two tests on the address, one after the other; each may raise the size to 43.
unfoldable pub dest_output_size : String → ℕ
unfolding has_taproot_prefix has_seg_wit_prefix
dest_output_size a =
    if ltb 4 (len a)
    then (if ltb 50 (len a) && has_seg_wit_prefix a
        then 43
        else (if has_taproot_prefix a then 43 else 31))
    else 31

unfoldable pub single_fee : ℕ → String → ℕ → ℕ
unfolding dest_output_size
single_fee inputs a rate = u64 ((10 + inputs * 68 + dest_output_size a + 31 + 2) * rate)

unfoldable pub single_change : ℕ → ℕ → ℕ → ℕ
single_change total amount fee = sub_u64 (sub_u64 total amount) fee

-- `getChaincfgParamsForTx` knows two chains.
unfoldable pub has_tx_params : Params → Bool
has_tx_params p = str_eq p.symbol "BTC" || str_eq p.symbol "LTC"

-- `parse_tx_id` and `to_script` read texts.
module _ (parse_tx_id : String → Option (List ℕ))
    (to_script : Params → String → Option (List ℕ)) where
  inputs_of : List Utxo → Result WalletError (List (List ℕ × ℕ))
  inputs_of [] = ok []
  inputs_of (u ∷ us) = do
    h ← of_option invalid_tx_id (parse_tx_id u.tx_id)
    rest ← inputs_of us
    ok ((h, u.vout) ∷ rest)

  -- The change output is there if the change is not dust.
  change_output : Params → String → ℕ → Result WalletError (List (List ℕ × ℕ))
  change_output p sender change =
      if ltb 546 change
      then (do s ← of_option invalid_address (to_script p sender); ok ((s, change) ∷ []))
      else ok []

  -- The transaction that `BuildAndSignTx` signs, and the outputs that it spends.
  unfoldable pub build_tx :
      List Utxo → String → String → ℕ → ℕ → Params → Result WalletError (Tx × List Utxo)
  unfolding inputs_of change_output
  build_tx utxos to_address sender amount rate p = do
    guard (not (is_empty utxos)) no_utxos
    guard (has_tx_params p) unsupported_chain
    (selected, total) ← of_option insufficient_funds (select_utxos_for_amount utxos amount rate)
    ins ← inputs_of selected
    dest ← of_option invalid_address (to_script p to_address)
    change_out ←
        change_output p sender
          (single_change total amount (single_fee (length selected) to_address rate))
    ok (record { inputs = ins; outputs = (dest, amount) ∷ change_out }, selected)

  -- `sign` signs all inputs and serializes.
  unfoldable pub build_and_sign_tx :
      (Tx → List Utxo → Option String)
      → List Utxo
      → String
      → String
      → ℕ
      → ℕ
      → Params
      → Result WalletError String
  unfolding build_tx
  build_and_sign_tx sign utxos to_address sender amount rate p = do
    (tx, selected) ← build_tx utxos to_address sender amount rate p
    of_option signing_failed (sign tx selected)

-- Where no sum wraps: if the inputs cover the amount and the fee, the change is the rest; if they
-- do not, which the selection allows because it counts at least 2 bytes less for the fee, the
-- change wraps to a number beyond every amount.
pub single_change-wraps :
    (total amount inputs : ℕ) (to_address : String) (rate : ℕ)
    → total < 2 ^ 63
    → amount + (10 + inputs * 68 + dest_output_size to_address + 31 + 2) * rate < 2 ^ 63
    → let fee = single_fee inputs to_address rate in
      (amount + fee ≤ total → amount + fee + single_change total amount fee ≡ total)
      × (total < amount + fee → 2 ^ 63 < single_change total amount fee)
unfolding single_fee single_change
single_change-wraps total amount inputs a rate ht hf = (λ h. omega arith, λ h. omega arith)

select_one :
    (u : Utxo) (amount rate : ℕ)
    → u.amount ≡ amount + 140 * rate
    → amount + 200 * rate < 2 ^ 63
    → select_utxos_for_amount (u ∷ []) amount rate ≡ some (u ∷ [], u.amount)
unfolding select_utxos_for_amount sort_utxos select_loop single_need
select_one u amount rate total fits = ground arith

dest_output_size-cases : (a : String) → (dest_output_size a ≡ 31) ⊎ (dest_output_size a ≡ 43)
unfolding dest_output_size
dest_output_size-cases a = ground arith

one_change :
    (total amount : ℕ) (a : String) (rate : ℕ)
    → 0 < rate
    → total ≡ amount + 140 * rate
    → amount + 200 * rate < 2 ^ 63
    → 2 ^ 63 < single_change total amount (single_fee 1 a rate)
one_change total amount a rate pos e fits = elim (dest_output_size-cases a) [
  | inl small ↦
      (single_change-wraps total amount 1 a rate (omega arith) (rw small (omega arith))).1
        (unfold single_fee in rw small (omega arith))
  | inr large ↦
      (single_change-wraps total amount 1 a rate (omega arith) (rw large (omega arith))).1
        (unfold single_fee in rw large (omega arith))
]

module _ (parse_tx_id : String → Option (List ℕ))
    (to_script : Params → String → Option (List ℕ)) where
  -- One output that holds the amount and 140 bytes' fee is selected for it. The transaction is
  -- then built, on a known chain with addresses that have scripts, with a change output beyond
  -- every amount, which no node accepts.
  pub build_tx-overspends :
      (u : Utxo) (to_address sender : String) (amount rate : ℕ) (p : Params) {h d s : List ℕ}
      → 0 < rate
      → u.amount ≡ amount + 140 * rate
      → amount + 200 * rate < 2 ^ 63
      → has_tx_params p ≡ true
      → parse_tx_id u.tx_id ≡ some h
      → to_script p to_address ≡ some d
      → to_script p sender ≡ some s
      → (change : ℕ) × (build_tx parse_tx_id to_script (u ∷ []) to_address sender amount rate p
          ≡ ok (
            record { inputs = (h, u.vout) ∷ []; outputs = (d, amount) ∷ (s, change) ∷ [] },
            u ∷ [],
          ))
        × (2 ^ 63 < change)
  unfolding build_tx
  build_tx-overspends u a sender amount rate p {h} {d} {s} pos total fits known hh hd hs =
      let wraps = one_change u.amount amount a rate pos total fits in
      let large : ltb 546 (single_change u.amount amount (single_fee 1 a rate)) ≡ true =
        ground arith in
      (
        single_change u.amount amount (single_fee 1 a rate),
        simp (select_one u amount rate total fits, known, hh, hd, hs, large) refl,
        wraps,
      )
