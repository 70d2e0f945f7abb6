-- ===== src/Swap/Funding/Balance.antt =====
-- What the selected outputs cover, and where the money of a funding transaction goes.
mod Tests
use klingdex.Prelude.{
  ℕ, ◌+◌, ◌-◌, ◌*◌, ◌%◌, ◌^◌, ◌≤◌, ◌<◌, String, Bool, true, false, ◌≡◌, refl, sym, ap, Option, none,
  some, List, [], ◌∷◌, ◌++◌, arith, ltb, ◌==◌, if◌then◌else◌, length, take, length-take, Result, ok,
  err, ◌>>=◌, >>=-eq-ok, guard, not, is_empty, inl, inr, Option-cases, Bool-cases,
}
use klingdex.Chain
use klingdex.Chain.{Params}
use klingdex.Swap.HtlcScript.{of_option}
use mathlib.Core.List.{Perm}
use klingdex.Utxos.Sort.{
  IsDescending, sort_utxos-sorts, sum_of, sum_of-append, sort_utxos, sum_of-sort_utxos,
  length-sort_utxos,
}
use klingdex.Utxos.Greedy.{select_loop, select_loop-Outcome, Outcome, Covers}
use klingdex.Swap.Funding.{
  Utxo, TxError, no_utxos, unsupported_chain, insufficient_funds, FundingParams, Tx, amount_of, u64,
  select_need, select_utxos, total_input, build_funding_tx, finish_tx, dust_threshold,
  estimated_v_size, funding_fee, pays_dao, output_if, inputs_of,
}

-- What `k` outputs have to pay: the target, and the fee for 96 bytes and 58 for each input.
abbrev pub cost : ℕ → ℕ → ℕ → ℕ
cost target rate k = target + (96 + k * 58) * rate

-- The first `k` outputs of a list pay for themselves and the target.
abbrev pub PaysFor : List Utxo → ℕ → ℕ → ℕ → Type 0
PaysFor sorted target rate k = cost target rate k ≤ sum_of amount_of (take k sorted)

select_need-cost :
    (target rate : ℕ) (xs : List Utxo)
    → cost target rate (length xs) < 2 ^ 64
    → select_need target rate xs ≡ cost target rate (length xs)
unfolding select_need
select_need-cost target rate xs h = omega arith

cost_mono : (target rate j k : ℕ) → j ≤ k → cost target rate j ≤ cost target rate k
cost_mono target rate j k h = grind arith

-- How a selection from a sorted list has to end.
abbrev pub Selects : List Utxo → ℕ → ℕ → Result TxError (List Utxo × ℕ) → Type 0
Selects sorted target rate (ok (selected, total)) =
    (n : ℕ) × (n ≤ length sorted)
    × (selected ≡ take n sorted)
    × (total ≡ sum_of amount_of selected)
    × PaysFor sorted target rate n
    × ((k : ℕ) → 0 < k → k < n → ¬ PaysFor sorted target rate k)
Selects sorted target rate (err insufficient_funds) =
    (k : ℕ) → 0 < k → k ≤ length sorted → ¬ PaysFor sorted target rate k
Selects sorted target rate (err no_utxos) = sorted ≡ []
Selects sorted target rate (err _) = ⊥

module _ (sorted : List Utxo) (target rate : ℕ)
    (fits : cost target rate (length sorted) < 2 ^ 64) where
  need-take :
      (k : ℕ) → k ≤ length sorted → select_need target rate (take k sorted) ≡ cost target rate k
  need-take k le =
      let l = length-take k sorted le in
      let small = cost_mono target rate k (length sorted) le in
      rw (select_need-cost target rate (take k sorted) (rw l (omega arith))) (rw l)

  not-Covers :
      (k : ℕ)
      → k ≤ length sorted
      → ¬ Covers amount_of (select_need target rate) sorted k
      → ¬ PaysFor sorted target rate k
  not-Covers k le h = rw (need-take k le) at h

  Selects-of-Outcome :
      (r : Option (List Utxo × ℕ))
      → Outcome amount_of (select_need target rate) sorted 0 r
      → Selects sorted target rate (of_option insufficient_funds r)
  Selects-of-Outcome none h = λ k pos le. not-Covers k le (h k pos le)
  Selects-of-Outcome (some (selected, total)) (n, le, taken, e, enough, first) = (
    n,
    le,
    taken,
    e,
    (let need = need-take n le in
        let same = ap (select_need target rate) taken in
        let same_sum = ap (sum_of amount_of) taken in omega arith),
    λ k pos lt. not-Covers k (omega arith) (first k pos lt),
  )

select_sorted :
    (utxos : List Utxo) (target rate : ℕ)
    → sum_of amount_of utxos < 2 ^ 64
    → cost target rate (length utxos) < 2 ^ 64
    → Selects (sort_utxos amount_of utxos) target rate (select_utxos utxos target rate)
unfolding select_utxos
select_sorted [] target rate hs hc = unfold sort_utxos in refl
select_sorted (u ∷ us) target rate hs hc =
    let sorted = sort_utxos amount_of (u ∷ us) in
    let l = length-sort_utxos amount_of (u ∷ us) in
    Selects-of-Outcome sorted target rate (rw l hc) _ (
      select_loop-Outcome amount_of (select_need target rate) sorted [] 0 refl
        (rw (sum_of-sort_utxos amount_of amount_of (u ∷ us)) hs))

-- Where no sum wraps, sorting permutes the outputs so that none is followed by a larger one, and a
-- selection takes the shortest non-empty prefix of the sorted outputs that pays for the target and
-- its own fee, and returns its total; it fails for lack of funds only if no prefix does, and for
-- lack of outputs only if there are none.
pub select_utxos-Selects :
    (utxos : List Utxo) (target rate : ℕ)
    → sum_of amount_of utxos < 2 ^ 64
    → cost target rate (length utxos) < 2 ^ 64
    → let sorted = sort_utxos amount_of utxos in
      Perm sorted utxos
      × IsDescending amount_of sorted
      × Selects sorted target rate (select_utxos utxos target rate)
select_utxos-Selects utxos target rate hs hc =
    let (same, falls) = sort_utxos-sorts amount_of utxos in
    (same, falls, select_sorted utxos target rate hs hc)

total_input-sum :
    (xs : List Utxo) (acc : ℕ)
    → acc + sum_of amount_of xs < 2 ^ 64
    → total_input xs acc ≡ acc + sum_of amount_of xs
unfolding total_input
total_input-sum [] acc h = omega arith
total_input-sum (x ∷ xs) acc h =
    let e : u64 (acc + x.amount) ≡ acc + x.amount = omega arith in
    rw e (omega (arith, total_input-sum xs (acc + x.amount) (omega arith)))

abbrev pub paid_to : List ℕ × ℕ → ℕ
paid_to o = o.1

-- The DAO fee, where no output pays it although it is counted.
abbrev pub unpaid_dao : FundingParams → ℕ
unpaid_dao p = if pays_dao p then 0 else p.dao_fee

funding_spent :
    (p : FundingParams)
    → p.swap_amount + p.dao_fee + estimated_v_size p * p.fee_rate < 2 ^ 64
    → u64 (u64 (p.swap_amount + p.dao_fee) + funding_fee p)
      ≡ p.swap_amount + p.dao_fee + estimated_v_size p * p.fee_rate
unfolding funding_fee
funding_spent p h = omega arith

-- The arithmetic of the balance: what enters, the three outputs and the fee.
balance_arith :
    (total swap dao fee dao_out change_out : ℕ) (pays : Bool)
    → swap + dao + fee ≤ total
    → dao_out ≡ (if pays then dao else 0)
    → change_out
      ≡ (if ltb dust_threshold (total - (swap + dao + fee)) then total - (swap + dao + fee) else 0)
    → let outs = swap + (dao_out + change_out) in
      let unpaid = if pays then 0 else dao in
      (outs + (total - outs) ≡ total)
      × (fee + unpaid ≤ total - outs)
      × (total - outs ≤ fee + unpaid + dust_threshold)
balance_arith total swap dao fee dao_out change_out pays le hd hc =
    (ground arith, ground arith, ground arith)

module _ (parse_tx_id : String → Option (List ℕ))
    (to_script : Params → String → Option (List ℕ)) where
  output_if-sum :
      (b : Bool) (c : Params) (a : String) (n : ℕ) {outs : List (List ℕ × ℕ)}
      → output_if parse_tx_id to_script b c a n ≡ ok outs
      → sum_of paid_to outs ≡ (if b then n else 0)
  unfolding output_if
  output_if-sum b c a n e = ground arith

  -- What the last part of the construction returns.
  finish_tx-ok :
      (c : Params) (p : FundingParams) (ins paid : List (List ℕ × ℕ)) (total spent : ℕ) {tx : Tx}
      → finish_tx parse_tx_id to_script c p ins paid total spent ≡ ok tx
      → (spent ≤ total)
        × (change_out : List (List ℕ × ℕ)) × (tx.outputs ≡ paid ++ change_out)
        × (sum_of paid_to change_out
            ≡ (if ltb dust_threshold (total - spent) then total - spent else 0))
  unfolding finish_tx
  finish_tx-ok c p ins paid total spent e = elim (Bool-cases (ltb total spent)) [
    | inl short ↦ absurd (ground arith)
    | inr enough ↦
        let e' = rw enough at e in
        let (change_out, change_ok, done) = >>=-eq-ok _ _ e' in
        (ground arith, change_out, ground arith, output_if-sum _ c p.change_address _ change_ok)
  ]

  -- What the first part of the construction has found.
  build_funding_tx-parts :
      (p : FundingParams) {tx : Tx}
      → build_funding_tx parse_tx_id to_script p ≡ ok tx
      → (c : Params) × (swap_out : List (List ℕ × ℕ)) × (dao_out : List (List ℕ × ℕ)) × (ins : List
          (List ℕ × ℕ))
        × (output_if parse_tx_id to_script true c p.swap_address p.swap_amount ≡ ok swap_out)
        × (output_if parse_tx_id to_script (pays_dao p) c p.dao_address p.dao_fee ≡ ok dao_out)
        × (finish_tx parse_tx_id to_script c p ins
              (swap_out ++ dao_out)
              (total_input p.utxos 0)
              (u64 (u64 (p.swap_amount + p.dao_fee) + funding_fee p))
            ≡ ok tx)
  unfolding build_funding_tx
  build_funding_tx-parts p {tx} e0 =
      let (_, _, e1) = >>=-eq-ok (guard (not (is_empty p.utxos)) no_utxos) _ e0 in
      let (c, _, e2) =
        >>=-eq-ok (of_option unsupported_chain (Chain.get p.symbol p.network)) _ e1 in
      let (ins, _, e3) = >>=-eq-ok (inputs_of parse_tx_id to_script p.utxos) _ e2 in
      let (swap_out, swap_ok, e4) =
        >>=-eq-ok (output_if parse_tx_id to_script true c p.swap_address p.swap_amount) _ e3 in
      let (dao_out, dao_ok, e5) =
        >>=-eq-ok (output_if parse_tx_id to_script (pays_dao p) c p.dao_address p.dao_fee) _ e4 in
      (c, swap_out, dao_out, ins, swap_ok, dao_ok, e5)

  -- A funding transaction that is built pays out what its inputs hold, but for the miners' fee:
  -- where no sum wraps, that is the estimated size times the rate, and the DAO fee if no output
  -- pays it, and at most 546 units of change too small to return.
  pub build_funding_tx-balance :
      (p : FundingParams) {tx : Tx}
      → sum_of amount_of p.utxos < 2 ^ 64
      → p.swap_amount + p.dao_fee + estimated_v_size p * p.fee_rate < 2 ^ 64
      → build_funding_tx parse_tx_id to_script p ≡ ok tx
      → (paid : ℕ) × (sum_of paid_to tx.outputs + paid ≡ sum_of amount_of p.utxos)
        × (estimated_v_size p * p.fee_rate + unpaid_dao p ≤ paid)
        × (paid ≤ estimated_v_size p * p.fee_rate + unpaid_dao p + dust_threshold)
  unfolding build_funding_tx
  build_funding_tx-balance p {tx} hs hf e =
      let (c, swap_out, dao_out, ins, swap_ok, dao_ok, e) = build_funding_tx-parts p e in
      let (le, change_out, outs, change_sum) = finish_tx-ok c p ins (swap_out ++ dao_out) _ _ e in
      let total : total_input p.utxos 0 ≡ sum_of amount_of p.utxos =
        omega (arith, total_input-sum p.utxos 0 (omega arith)) in
      let spent = funding_spent p hf in
      let sum_outs = sum_of-append paid_to (swap_out ++ dao_out) change_out in
      let sum_rest = sum_of-append paid_to swap_out dao_out in
      let swap_sum = output_if-sum true c p.swap_address p.swap_amount swap_ok in
      let dao_sum = output_if-sum (pays_dao p) c p.dao_address p.dao_fee dao_ok in
      let o : sum_of paid_to tx.outputs
          ≡ p.swap_amount + (sum_of paid_to dao_out + sum_of paid_to change_out) =
        rw outs (omega arith) in
      let b =
        balance_arith (sum_of amount_of p.utxos) p.swap_amount p.dao_fee
          (estimated_v_size p * p.fee_rate) (sum_of paid_to dao_out) (sum_of paid_to change_out)
          (pays_dao p) (omega arith) dao_sum (rw (total, spent) at change_sum) in
      (sum_of amount_of p.utxos - sum_of paid_to tx.outputs, rw o b.0, rw o b.1, rw o b.2)
