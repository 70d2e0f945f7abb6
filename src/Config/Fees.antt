-- ===== src/Config/Fees.antt =====
-- internal/config/config.go: the fee schedule in basis points, over uint64, and the DAO fee of
-- internal/swap/tx.go that is computed from it.
use klingdex.Prelude.{ℕ, ◌+◌, ◌*◌, ◌/◌, ◌%◌, ◌^◌, ◌≤◌, ◌<◌, Bool, ◌≡◌, arith, ltb, if◌then◌else◌}

pub record FeeConfig : Type 0 where
  pub maker_fee_bps : ℕ
  pub taker_fee_bps : ℕ
  pub dao_share_bps : ℕ
  pub node_operator_share_bps : ℕ

abbrev pub default_fee_config : FeeConfig
default_fee_config = record {
  maker_fee_bps = 20;
  taker_fee_bps = 20;
  dao_share_bps = 5000;
  node_operator_share_bps = 5000;
}

-- The fields are uint16, and so is their sum.
unfoldable pub total_fee_bps : FeeConfig → ℕ
total_fee_bps f = (f.maker_fee_bps + f.taker_fee_bps) % 2 ^ 16

abbrev pub fee_bps : FeeConfig → Bool → ℕ
fee_bps f is_maker = if is_maker then f.maker_fee_bps else f.taker_fee_bps

-- `(amount * uint64(feeBPS)) / 10000`: the product wraps.
unfoldable pub calculate_fee : FeeConfig → ℕ → Bool → ℕ
calculate_fee f amount is_maker = amount * fee_bps f is_maker % 2 ^ 64 / 10000

unfoldable pub calculate_dao_share : FeeConfig → ℕ → ℕ
calculate_dao_share f fee = fee * f.dao_share_bps % 2 ^ 64 / 10000

unfoldable pub calculate_node_operator_share : FeeConfig → ℕ → ℕ
calculate_node_operator_share f fee = fee * f.node_operator_share_bps % 2 ^ 64 / 10000

abbrev pub min_dao_fee : ℕ
min_dao_fee = 546

-- `swap.CalculateDAOFee`
unfoldable pub calculate_dao_fee : ℕ → Bool → ℕ
unfolding calculate_fee calculate_dao_share
calculate_dao_fee amount is_maker =
    let fee =
      calculate_dao_share default_fee_config (calculate_fee default_fee_config amount is_maker) in
    if ltb fee min_dao_fee then min_dao_fee else fee

-- Where the product fits 64 bits, the fee under the default schedule is 0.2% rounded down, and
-- the DAO's and the operators' shares of it are equal and lose at most one unit together.
pub default_fee_shares :
    (amount : ℕ) (is_maker : Bool)
    → amount * 20 < 2 ^ 64
    → let fee = calculate_fee default_fee_config amount is_maker in
      let dao = calculate_dao_share default_fee_config fee in
      let operators = calculate_node_operator_share default_fee_config fee in
      (fee ≡ amount / 500)
      × (dao ≡ operators)
      × (dao + operators ≤ fee)
      × (fee ≤ dao + operators + 1)
unfolding calculate_fee calculate_dao_share calculate_node_operator_share
default_fee_shares amount is_maker h = ground arith

-- Where the product does not fit 64 bits, which 0.93 units of a coin with 18 decimals reach, the
-- fee under the default schedule is less than 0.2% of the amount.
pub calculate_fee_wraps :
    (amount : ℕ) (is_maker : Bool)
    → 2 ^ 64 ≤ amount * 20
    → calculate_fee default_fee_config amount is_maker < amount / 500
unfolding calculate_fee
calculate_fee_wraps amount is_maker h = ground arith

-- The DAO fee is never dust. For an amount whose fee does not wrap it is 0.1% of the amount,
-- rounded down, if that is at least 546, and 546 otherwise.
pub calculate_dao_fee_bounds :
    (amount : ℕ) (is_maker : Bool)
    → amount * 20 < 2 ^ 64
    → (546 ≤ calculate_dao_fee amount is_maker)
      × (546000 ≤ amount → calculate_dao_fee amount is_maker ≡ amount / 1000)
      × (amount < 546000 → calculate_dao_fee amount is_maker ≡ 546)
unfolding calculate_dao_fee
calculate_dao_fee_bounds amount is_maker h =
    (ground arith, λ big. ground arith, λ small. ground arith)
