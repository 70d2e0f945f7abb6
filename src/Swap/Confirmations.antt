-- ===== src/Swap/Confirmations.antt =====
-- internal/swap/swap.go: the confirmations of the two funding transactions.
mod Tests
use klingdex.Prelude.{
  ℕ, ◌≤◌, String, Bool, true, false, ◌&&◌, ◌≡◌, ◌≢◌, ◌↔◌, Option, none, some, arith, leb,
  if◌then◌else◌, str_eq, eq_iff,
}
use klingdex.Config.Timeouts.{ChainTimeoutConfig, get_chain_timeout}
use klingdex.Swap.Types.{SwapError, insufficient_confirmations, Swap, is_testnet, is_initiator}
use klingdex.Swap.Heights.{timeout_or_zero}

pub record FundingStatus : Type 0 where
  pub tx_id : String
  pub confirmations : ℕ
  pub required : ℕ
  pub is_final : Bool

funding_status : String → ℕ → Option ChainTimeoutConfig → Option FundingStatus
funding_status tx n cfg =
    let needed = (timeout_or_zero cfg).min_confirmations in
    if str_eq tx ""
    then none
    else some (record { tx_id = tx; confirmations = n; required = needed; is_final = leb needed n })

-- The initiator funds the offer chain, and the responder the request chain.
abbrev pub local_chain : Swap → String
local_chain s = if is_initiator s.role then s.offer.offer_chain else s.offer.request_chain

abbrev pub remote_chain : Swap → String
remote_chain s = if is_initiator s.role then s.offer.request_chain else s.offer.offer_chain

unfoldable pub get_local_funding_status : Swap → Option FundingStatus
unfolding funding_status
get_local_funding_status s =
    funding_status s.local_funding_tx_id s.local_funding_confirms
      (get_chain_timeout (local_chain s) (is_testnet s.network))

unfoldable pub get_remote_funding_status : Swap → Option FundingStatus
unfolding funding_status
get_remote_funding_status s =
    funding_status s.remote_funding_tx_id s.remote_funding_confirms
      (get_chain_timeout (remote_chain s) (is_testnet s.network))

unfoldable pub update_local_confirmations : Swap → ℕ → Swap
update_local_confirmations s n = record s { local_funding_confirms = n }

unfoldable pub update_remote_confirmations : Swap → ℕ → Swap
update_remote_confirmations s n = record s { remote_funding_confirms = n }

both_final : Option FundingStatus → Option FundingStatus → Bool
both_final none r = false
both_final (some l) none = false
both_final (some l) (some r) = l.is_final && r.is_final

unfoldable pub is_funding_confirmed : Swap → Bool
unfolding both_final get_local_funding_status get_remote_funding_status
is_funding_confirmed s = both_final (get_local_funding_status s) (get_remote_funding_status s)

check_status : Option FundingStatus → Option SwapError
check_status none = some insufficient_confirmations
check_status (some f) = if f.is_final then none else some insufficient_confirmations

abbrev then_check : Option SwapError → Option SwapError → Option SwapError
then_check none e = e
then_check (some x) e = some x

unfoldable pub check_confirmations : Swap → Option SwapError
unfolding check_status get_local_funding_status get_remote_funding_status
check_confirmations s =
    then_check (check_status (get_local_funding_status s))
      (check_status (get_remote_funding_status s))

-- How many confirmations the swap's configuration asks of a chain.
abbrev pub required_on : Swap → String → ℕ
required_on s c = (timeout_or_zero (get_chain_timeout c (is_testnet s.network))).min_confirmations

-- The check passes exactly if both funding transactions are recorded and have the confirmations
-- that their chains ask for, and the Boolean test says the same.
pub check_confirmations_iff :
    (s : Swap)
    → ((check_confirmations s ≡ none) ↔ (is_funding_confirmed s ≡ true))
      × ((check_confirmations s ≡ none) ↔ (
          (s.local_funding_tx_id ≢ "")
          × (s.remote_funding_tx_id ≢ "")
          × (required_on s (local_chain s) ≤ s.local_funding_confirms)
          × (required_on s (remote_chain s) ≤ s.remote_funding_confirms)))
unfolding check_confirmations is_funding_confirmed
check_confirmations_iff s =
    let el = eq_iff s.local_funding_tx_id "" in
    let er = eq_iff s.remote_funding_tx_id "" in
    (
      (λ h. ground arith, λ h. ground arith),
      (
        λ h. (ground (arith, el), ground (arith, er), ground arith, ground arith),
        λ h. ground (arith, el, er),
      ),
    )

-- More confirmations never undo a passed check.
pub check_confirmations_mono :
    (s : Swap) (l r : ℕ)
    → s.local_funding_confirms ≤ l
    → s.remote_funding_confirms ≤ r
    → check_confirmations s ≡ none
    → check_confirmations (update_remote_confirmations (update_local_confirmations s l) r) ≡ none
unfolding check_confirmations update_local_confirmations update_remote_confirmations
check_confirmations_mono s l r hl hr h = ground arith

-- On chains without a row in the timeout tables, which are all but BTC, LTC and DOGE, two recorded
-- funding transactions count as confirmed with no confirmation at all.
pub unconfigured_is_confirmed :
    (s : Swap)
    → get_chain_timeout s.offer.offer_chain (is_testnet s.network) ≡ none
    → get_chain_timeout s.offer.request_chain (is_testnet s.network) ≡ none
    → s.local_funding_tx_id ≢ ""
    → s.remote_funding_tx_id ≢ ""
    → check_confirmations (update_remote_confirmations (update_local_confirmations s 0) 0) ≡ none
unfolding check_confirmations update_local_confirmations update_remote_confirmations
unconfigured_is_confirmed s ea eb l r =
    ground (arith, eq_iff s.local_funding_tx_id "", eq_iff s.remote_funding_tx_id "")
