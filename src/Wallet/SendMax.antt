-- ===== src/Wallet/SendMax.antt =====
-- What becomes of `BuildSendMaxTx`: the amount leaves no room for the change output that the
-- selection pays for.
mod Tests
use mathlib.Core.List.{reverse}
use klingdex.Prelude.{
  ℕ, zero, suc, ◌+◌, ◌-◌, ◌*◌, ◌%◌, ◌^◌, ◌≤◌, ◌<◌, Bool, false, String, ◌≡◌, refl, sym, ap, ◌⊎◌,
  inl, inr, Option, none, some, List, [], ◌∷◌, arith, leb, length, take, Result, ok, err, ◌>>=◌,
  >>=-eq-ok, Option-cases, All, not, guard, is_empty, Bool-cases,
}
use klingdex.Utxos.Sort.{sum_of, sort_utxos, sum_of-sort_utxos, All-sort_utxos}
use klingdex.Utxos.Greedy.{select_loop, select_loop-Outcome, Outcome}
use klingdex.Swap.HtlcScript.{of_option}
use klingdex.Swap.Funding.{Tx, u64}
use klingdex.Chain
use klingdex.Chain.{Params}
use klingdex.Wallet.Single.{
  WalletError, no_utxos, unsupported_chain, has_tx_params, insufficient_funds,
}
use klingdex.Wallet.Multi.{
  AddressUtxo, SendMaxParams, MultiAddressTxParams, MultiAddressTxResult, amount_of, input_size,
  sum_of_sizes, multi_need, calculate_inputs_fee, select_address_utxos, estimate_output_size,
  sum_of_amounts, calculate_max_send_amount, build_send_max_tx, build_and_sign_multi_address_tx,
}

sum_of_sizes-sum_of : (us : List AddressUtxo) → sum_of_sizes us ≡ sum_of input_size us
unfolding sum_of_sizes
sum_of_sizes-sum_of [] = refl
sum_of_sizes-sum_of (u ∷ us) = omega (arith, sum_of_sizes-sum_of us)

sum_of_amounts-sum_of :
    (us : List AddressUtxo) (acc : ℕ)
    → acc + sum_of amount_of us < 2 ^ 64
    → sum_of_amounts us acc ≡ acc + sum_of amount_of us
unfolding sum_of_amounts
sum_of_amounts-sum_of [] acc h = omega arith
sum_of_amounts-sum_of (u ∷ us) acc h =
    let e : u64 (acc + u.amount) ≡ acc + u.amount = omega arith in
    rw e (omega (arith, sum_of_amounts-sum_of us (acc + u.amount) (omega arith)))

-- An output is worth the fee for spending it.
abbrev pub IsEconomic : ℕ → AddressUtxo → Type 0
IsEconomic rate u = input_size u * rate ≤ u.amount

-- What is left out of a prefix is worth at least the fee for it.
economic_rest :
    (rate : ℕ) (us : List AddressUtxo) (k : ℕ)
    → All (IsEconomic rate) us
    → sum_of amount_of (take k us) + sum_of input_size us * rate
      ≤ sum_of amount_of us + sum_of input_size (take k us) * rate
economic_rest rate [] zero h = omega arith
economic_rest rate [] (suc k) h = omega arith
economic_rest rate (u ∷ us) zero (e, h) = let rest = economic_rest rate us zero h in grind arith
economic_rest rate (u ∷ us) (suc k) (e, h) = let rest = economic_rest rate us k h in grind arith

estimate_output_size-le : (a : String) → estimate_output_size a ≤ 43
unfolding estimate_output_size
estimate_output_size-le a = ground arith

sum_of-take :
    (f : AddressUtxo → ℕ) (us : List AddressUtxo) (k : ℕ) → sum_of f (take k us) ≤ sum_of f us
sum_of-take f us zero = omega arith
sum_of-take f [] (suc k) = omega arith
sum_of-take f (u ∷ us) (suc k) = omega (arith, sum_of-take f us k)

multi_need-sum :
    (target rate : ℕ) (us : List AddressUtxo)
    → target + (72 + sum_of input_size us) * rate < 2 ^ 64
    → multi_need target rate us ≡ target + (72 + sum_of input_size us) * rate
unfolding multi_need calculate_inputs_fee
multi_need-sum target rate us h = let e = sum_of_sizes-sum_of us in rw e (omega arith)

-- The arithmetic of one prefix: what it holds, and what it would have to hold.
short_arith :
    (total part sizes some_sizes most rate out : ℕ)
    → 0 < rate
    → out ≤ 43
    → most + (10 + sizes + out) * rate ≡ total
    → part + sizes * rate ≤ total + some_sizes * rate
    → ¬ (most + (72 + some_sizes) * rate ≤ part)
short_arith total part sizes some_sizes most rate out pos le e h =
    λ k. let m : out * rate ≤ 43 * rate = grind arith in omega arith

max_fee :
    (us : List AddressUtxo) (a : String) (rate : ℕ)
    → (72 + sum_of input_size us) * rate < 2 ^ 64
    → u64 ((10 + sum_of_sizes us + estimate_output_size a) * rate)
      ≡ (10 + sum_of input_size us + estimate_output_size a) * rate
max_fee us a rate h =
    let e = sum_of_sizes-sum_of us in
    let le = estimate_output_size-le a in
    let m : (10 + sum_of input_size us + estimate_output_size a) * rate
        ≤ (72 + sum_of input_size us) * rate =
      grind arith in
    rw e (omega arith)

max_of_parts :
    (total fee : ℕ) {most paid : ℕ}
    → ◌>>=◌ {B = ℕ × ℕ}
        (guard (not (leb total fee)) insufficient_funds)
        (λ _. ok (total - fee, fee))
      ≡ ok (most, paid)
    → most + fee ≡ total
max_of_parts total fee e = ground arith

-- The largest amount, where its sums do not wrap.
calculate_max_send_amount-ok :
    (p : SendMaxParams) {most fee : ℕ}
    → sum_of amount_of p.utxos < 2 ^ 64
    → (72 + sum_of input_size p.utxos) * p.fee_rate < 2 ^ 64
    → calculate_max_send_amount p ≡ ok (most, fee)
    → most + (10 + sum_of input_size p.utxos + estimate_output_size p.to_address) * p.fee_rate
      ≡ sum_of amount_of p.utxos
unfolding calculate_max_send_amount
calculate_max_send_amount-ok p {most} {fee} hs hf e =
    let (_, _, e') = >>=-eq-ok (guard (not (is_empty p.utxos)) _) _ e in
    let total : sum_of_amounts p.utxos 0 ≡ sum_of amount_of p.utxos =
      omega (arith, sum_of_amounts-sum_of p.utxos 0 (omega arith)) in
    rw (total, max_fee p.utxos p.to_address p.fee_rate hf) at (max_of_parts _ _ e')

-- No prefix of the outputs pays for the largest amount and the selection's idea of the fee.
nothing_covers :
    (us : List AddressUtxo) (most rate out : ℕ)
    → 0 < rate
    → out ≤ 43
    → sum_of amount_of us + (72 + sum_of input_size us) * rate < 2 ^ 64
    → All (IsEconomic rate) us
    → most + (10 + sum_of input_size us + out) * rate ≡ sum_of amount_of us
    → (k : ℕ) → ¬ (multi_need most rate (take k us) ≤ sum_of amount_of (take k us))
nothing_covers us most rate out pos le fits economic e k =
    let part = sum_of-take input_size us k in
    let m : (72 + sum_of input_size (take k us)) * rate ≤ (72 + sum_of input_size us) * rate =
      grind arith in
    rw (multi_need-sum most rate (take k us) (omega arith)) (
      short_arith (sum_of amount_of us) (sum_of amount_of (take k us)) (sum_of input_size us)
        (sum_of input_size (take k us)) most rate out pos le e (economic_rest rate us k economic))

loop_finds_nothing :
    (us : List AddressUtxo) (most rate : ℕ)
    → ((k : ℕ) → ¬ (multi_need most rate (take k us) ≤ sum_of amount_of (take k us)))
    → sum_of amount_of us < 2 ^ 64
    → select_loop amount_of (multi_need most rate) us [] 0 ≡ none
loop_finds_nothing us most rate h fits =
    go (select_loop amount_of (multi_need most rate) us [] 0)
      (select_loop-Outcome amount_of (multi_need most rate) us [] 0 refl fits)
  where
    go :
        (r : Option (List AddressUtxo × ℕ))
        → Outcome amount_of (multi_need most rate) us 0 r
        → r ≡ none
    go none o = refl
    go (some (selected, total)) (n, _, taken, sum, enough, _) =
        absurd (h n (rw (sum, taken) at enough))

max_not_empty :
    (p : SendMaxParams) {r : ℕ × ℕ} → calculate_max_send_amount p ≡ ok r → is_empty p.utxos ≡ false
unfolding calculate_max_send_amount
max_not_empty p e = ground arith

max_selection_fails :
    (p : SendMaxParams) {most fee : ℕ}
    → 0 < p.fee_rate
    → sum_of amount_of p.utxos + (72 + sum_of input_size p.utxos) * p.fee_rate < 2 ^ 64
    → All (IsEconomic p.fee_rate) p.utxos
    → calculate_max_send_amount p ≡ ok (most, fee)
    → select_address_utxos p.utxos most p.fee_rate ≡ err insufficient_funds
unfolding select_address_utxos
max_selection_fails p {most} {fee} pos fits economic e =
    let sorted = sort_utxos amount_of p.utxos in
    let amounts = sum_of-sort_utxos amount_of amount_of p.utxos in
    let sizes = sum_of-sort_utxos amount_of input_size p.utxos in
    let max = calculate_max_send_amount-ok p (omega arith) (omega arith) e in
    let none_found =
      loop_finds_nothing sorted most p.fee_rate
        (nothing_covers sorted most p.fee_rate (estimate_output_size p.to_address) pos
          (estimate_output_size-le p.to_address) (rw (amounts, sizes) fits)
          (All-sort_utxos amount_of (IsEconomic p.fee_rate) p.utxos economic)
          (rw (amounts, sizes) max))
        (rw amounts (omega arith)) in
    rw (max_not_empty p e, none_found) refl

module _ (parse_tx_id : String → Option (List ℕ)) (to_script : Params → String → Option (List ℕ))
    (sign : Tx → List AddressUtxo → Option (String × String)) where
  build_multi-selects :
      (p : MultiAddressTxParams) {r : MultiAddressTxResult}
      → build_and_sign_multi_address_tx parse_tx_id to_script sign p ≡ ok r
      → (x : List AddressUtxo × ℕ) × (select_address_utxos p.utxos p.amount p.fee_rate ≡ ok x)
  unfolding build_and_sign_multi_address_tx
  build_multi-selects p e0 =
      let (_, _, e1) = >>=-eq-ok (guard (not (is_empty p.utxos)) no_utxos) _ e0 in
      let (c, _, e2) =
        >>=-eq-ok (of_option unsupported_chain (Chain.get p.symbol p.network)) _ e1 in
      let (_, _, e3) = >>=-eq-ok (guard (has_tx_params c) unsupported_chain) _ e2 in
      let (x, found, _) = >>=-eq-ok (select_address_utxos p.utxos p.amount p.fee_rate) _ e3 in
      (x, found)

  -- The amount that `CalculateMaxSendAmount` gives is never sent: where the fee rate is not zero,
  -- no sum wraps and each output is worth the fee for spending it, the selection for that amount
  -- fails for lack of funds, and `BuildSendMaxTx` does not return a transaction.
  pub build_send_max_tx-fails :
      (p : SendMaxParams) {most fee : ℕ}
      → 0 < p.fee_rate
      → sum_of amount_of p.utxos + (72 + sum_of input_size p.utxos) * p.fee_rate < 2 ^ 64
      → All (IsEconomic p.fee_rate) p.utxos
      → calculate_max_send_amount p ≡ ok (most, fee)
      → (select_address_utxos p.utxos most p.fee_rate ≡ err insufficient_funds)
        × ((r : MultiAddressTxResult) → ¬ (build_send_max_tx parse_tx_id to_script sign p ≡ ok r))
  unfolding build_send_max_tx
  build_send_max_tx-fails p {most} {fee} pos fits economic e =
      let fails = max_selection_fails p pos fits economic e in
      (
        fails,
        λ r b.
            let (x, found) =
              build_multi-selects
                (record {
                  utxos = p.utxos;
                  to_address = p.to_address;
                  amount = most;
                  change_address = "";
                  fee_rate = p.fee_rate;
                  symbol = p.symbol;
                  network = p.network;
                })
                (rw e at b) in
            absurd (cc (rw fails at found)),
      )
