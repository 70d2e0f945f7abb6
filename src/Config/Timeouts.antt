-- ===== src/Config/Timeouts.antt =====
-- internal/config/config.go: the timeouts of the chains in blocks, and the tests on heights.
-- Heights are uint32: sums wrap.
use klingdex.Prelude.{
  ℕ, ◌+◌, ◌-◌, ◌*◌, ◌%◌, ◌^◌, ◌<◌, String, Bool, true, false, ◌≡◌, ◌↔◌, Option, some, List, [], ◌∷◌,
  arith, ltb, leb, if◌then◌else◌, lookup, All-lookup,
}

pub record ChainTimeoutConfig : Type 0 where
  pub maker_blocks : ℕ
  pub taker_blocks : ℕ
  pub safety_margin_blocks : ℕ
  pub min_confirmations : ℕ
  pub avg_block_time_seconds : ℕ

abbrev timeout_config : ℕ → ℕ → ℕ → ℕ → ℕ → ChainTimeoutConfig
timeout_config maker taker margin confirmations seconds = record {
  maker_blocks = maker;
  taker_blocks = taker;
  safety_margin_blocks = margin;
  min_confirmations = confirmations;
  avg_block_time_seconds = seconds;
}

abbrev pub chain_timeouts : List (String × ChainTimeoutConfig)
chain_timeouts =
    ("BTC", timeout_config 144 72 6 3 600)
    ∷ ("LTC", timeout_config 576 288 24 6 150)
    ∷ ("DOGE", timeout_config 1440 720 60 6 60)
    ∷ []

abbrev pub testnet_chain_timeouts : List (String × ChainTimeoutConfig)
testnet_chain_timeouts =
    ("BTC", timeout_config 72 36 6 0 600)
    ∷ ("LTC", timeout_config 288 144 24 0 150)
    ∷ ("DOGE", timeout_config 720 360 60 0 60)
    ∷ []

-- What Go's `cfg, _ := m[k]` gives on a missing key.
abbrev pub zero_timeout : ChainTimeoutConfig
zero_timeout = timeout_config 0 0 0 0 0

unfoldable pub get_chain_timeout : String → Bool → Option ChainTimeoutConfig
get_chain_timeout s true = lookup s testnet_chain_timeouts
get_chain_timeout s false = lookup s chain_timeouts

unfoldable pub is_safe_to_complete : ℕ → ℕ → ℕ → Bool
is_safe_to_complete current timeout margin =
    if leb timeout current then false else ltb ((current + margin) % 2 ^ 32) timeout

unfoldable pub blocks_until_timeout : ℕ → ℕ → ℕ
blocks_until_timeout current timeout = if leb timeout current then 0 else timeout - current

-- In seconds: the product is taken in uint32 before it becomes a `time.Duration`.
unfoldable pub estimate_time_until_timeout : ℕ → ℕ → ℕ → ℕ
unfolding blocks_until_timeout
estimate_time_until_timeout current timeout seconds =
    blocks_until_timeout current timeout * seconds % 2 ^ 32

-- What a row of the tables must satisfy for a swap to be safe.
abbrev pub IsSoundTimeout : ChainTimeoutConfig → Type 0
IsSoundTimeout c =
    (c.taker_blocks + c.safety_margin_blocks < c.maker_blocks)
    × (c.safety_margin_blocks < c.taker_blocks)
    × (c.taker_blocks * 2 ≡ c.maker_blocks)
    × (c.maker_blocks < 2 ^ 16)

-- On either network every configured chain gives the maker twice the taker's blocks, so that the
-- maker's lock outlasts the taker's by more than the safety margin, the margin lies inside the
-- taker's lock, and the maker's lock fits the 16 bits of a relative timelock.
pub get_chain_timeout-IsSound :
    (s : String) (test : Bool) {c : ChainTimeoutConfig}
    → get_chain_timeout s test ≡ some c
    → IsSoundTimeout c
unfolding get_chain_timeout
get_chain_timeout-IsSound s true e =
    All-lookup IsSoundTimeout s testnet_chain_timeouts (omega arith) e
get_chain_timeout-IsSound s false e = All-lookup IsSoundTimeout s chain_timeouts (omega arith) e

-- If the sum of the height and the margin fits 32 bits, the test passes exactly when more than
-- `margin` blocks are left until the timeout.
pub is_safe_to_complete_iff :
    (current timeout margin : ℕ)
    → current + margin < 2 ^ 32
    → (is_safe_to_complete current timeout margin ≡ true)
      ↔ (margin < blocks_until_timeout current timeout)
unfolding is_safe_to_complete blocks_until_timeout
is_safe_to_complete_iff current timeout margin h = ground arith
