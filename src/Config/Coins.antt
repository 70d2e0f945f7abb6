-- ===== src/Config/Coins.antt =====
-- internal/config/config.go: the supported coins and what the exchange asks of them.
-- `Coin` leaves out the display name.
use klingdex.Prelude.{
  ℕ, String, Bool, true, false, ◌≡◌, ◌||◌, Option, none, some, List, [], ◌∷◌, inl, inr, refl, arith,
  lookup, All-lookup, Option-cases,
}

pub data CoinType : Type 0 where
  bitcoin monero evm solana : CoinType

pub data SwapMethod : Type 0 where
  musig2 htlc adaptor contract program : SwapMethod

pub record Coin : Type 0 where
  pub symbol : String
  pub coin_type : CoinType
  pub decimals : ℕ
  pub swap_methods : List SwapMethod
  pub min_amount : ℕ
  pub max_amount : ℕ

abbrev coin : String → CoinType → ℕ → List SwapMethod → ℕ → ℕ → Coin
coin s t places methods low high = record {
  symbol = s;
  coin_type = t;
  decimals = places;
  swap_methods = methods;
  min_amount = low;
  max_amount = high;
}

abbrev evm_coin : String → ℕ → Coin
evm_coin s low = coin s evm 18 (contract ∷ []) low 0

abbrev pub supported_coins : List (String × Coin)
supported_coins =
    ("BTC", coin "BTC" bitcoin 8 (musig2 ∷ htlc ∷ []) 10000 100000000000)
    ∷ ("LTC", coin "LTC" bitcoin 8 (musig2 ∷ htlc ∷ []) 100000 0)
    ∷ ("DOGE", coin "DOGE" bitcoin 8 (htlc ∷ []) 100000000 0)
    ∷ ("XMR", coin "XMR" monero 12 (adaptor ∷ []) 1000000000 0)
    ∷ ("ETH", evm_coin "ETH" 1000000000000000)
    ∷ ("BSC", evm_coin "BNB" 1000000000000000)
    ∷ ("POLYGON", evm_coin "POL" 1000000000000000000)
    ∷ ("ARBITRUM", evm_coin "ETH" 1000000000000000)
    ∷ ("OPTIMISM", evm_coin "ETH" 1000000000000000)
    ∷ ("BASE", evm_coin "ETH" 1000000000000000)
    ∷ ("AVAX", evm_coin "AVAX" 1000000000000000)
    ∷ ("SOL", coin "SOL" solana 9 (program ∷ []) 10000000 0)
    ∷ []

unfoldable pub get_coin : String → Option Coin
get_coin s = lookup s supported_coins

-- What Go's `coin, _ := m[k]` gives on a missing key: the empty type string is none of the
-- constructors, and nothing reads the type of such a coin.
abbrev zero_limits : ℕ × ℕ
zero_limits = (0, 0)

-- The limits that `Offer.Validate` reads of a coin, of the zero value if it is not supported.
abbrev pub limits : Option Coin → ℕ × ℕ
limits none = zero_limits
limits (some c) = (c.min_amount, c.max_amount)

method_eq : SwapMethod → SwapMethod → Bool
method_eq musig2 musig2 = true
method_eq htlc htlc = true
method_eq adaptor adaptor = true
method_eq contract contract = true
method_eq program program = true
method_eq _ _ = false

contains_method : List SwapMethod → SwapMethod → Bool
contains_method [] m = false
contains_method (x ∷ xs) m = method_eq x m || contains_method xs m

unfoldable pub supports_swap_method : String → SwapMethod → Bool
unfolding get_coin method_eq contains_method
supports_swap_method s m = elim (get_coin s) [
  | none ↦ false
  | some c ↦ contains_method c.swap_methods m
]

unfoldable pub get_preferred_swap_method : String → Option SwapMethod
unfolding get_coin
get_preferred_swap_method s = elim (get_coin s) [
  | none ↦ none
  | some c ↦ elim c.swap_methods [ [] ↦ none | m ∷ ms ↦ some m ]
]

unfoldable pub is_coin_supported : String → Bool
unfolding get_coin
is_coin_supported s = elim (get_coin s) [ none ↦ false | some _ ↦ true ]

-- The method that a coin lists first is one that it supports.
abbrev HasMethod : Coin → Type 0
HasMethod c = (m : SwapMethod) × (ms : List SwapMethod) × (c.swap_methods ≡ m ∷ ms)

method_eq_self : (m : SwapMethod) → method_eq m m ≡ true
unfolding method_eq
method_eq_self musig2 = refl
method_eq_self _ = refl

coin_HasMethod : (s : String) (c : Coin) → get_coin s ≡ some c → HasMethod c
unfolding get_coin
coin_HasMethod s c e =
    All-lookup HasMethod s supported_coins
      (
        (_, _, refl),
        (
          (_, _, refl),
          (
            (_, _, refl),
            (
              (_, _, refl),
              (
                (_, _, refl),
                (
                  (_, _, refl),
                  (
                    (_, _, refl),
                    (
                      (_, _, refl),
                      ((_, _, refl), ((_, _, refl), ((_, _, refl), ((_, _, refl), tt)))),
                    ),
                  ),
                ),
              ),
            ),
          ),
        ),
      )
      e

preferred_of_coin :
    (s : String) (c : Coin)
    → get_coin s ≡ some c
    → HasMethod c
    → (m : SwapMethod) × (get_preferred_swap_method s ≡ some m) × (supports_swap_method s m ≡ true)
unfolding get_preferred_swap_method supports_swap_method
preferred_of_coin s c e (m, ms, q) = (m, ground arith, ground (arith, method_eq_self m))

-- Every supported coin has a preferred swap method, and supports it.
pub preferred_supported :
    (s : String)
    → is_coin_supported s ≡ true
    → (m : SwapMethod) × (get_preferred_swap_method s ≡ some m) × (supports_swap_method s m ≡ true)
unfolding is_coin_supported
preferred_supported s h = elim (Option-cases (get_coin s)) [
  | inl missing ↦ absurd (ground arith)
  | inr (c, e) ↦ preferred_of_coin s c e (coin_HasMethod s c e)
]
