-- ===== src/Chain.antt =====
-- internal/chain: the parameters of the supported chains and the registry that finds them.
-- `Params` leaves out the display name, the address version bytes, the HD key prefixes and the
-- default address type, which only the address encoders read. A Go map of maps is an association
-- list from the symbol to a function of the network.
use klingdex.Prelude.{ℕ, String, Bool, true, false, Option, none, some, List, [], ◌∷◌, ◌++◌, lookup}

pub data Network : Type 0 where
  mainnet testnet : Network
  unlisted : String → Network

pub data ChainType : Type 0 where
  bitcoin evm monero solana : ChainType

pub record Params : Type 0 where
  pub symbol : String
  pub chain_type : ChainType
  pub decimals : ℕ
  pub coin_type : ℕ
  pub default_purpose : ℕ
  pub bech32_hrp : String
  pub chain_id : ℕ
  pub native_token : String
  pub supports_seg_wit : Bool
  pub supports_taproot : Bool

abbrev pub Registry : Type 0
Registry = List (String × (Network → Option Params))

-- Both networks of one symbol; a network string that is neither has no entry.
abbrev register : Params → Params → Network → Option Params
register main test mainnet = some main
register main test testnet = some test
register main test (unlisted _) = none

-- A chain of the Bitcoin family: symbol, coin type, purpose, prefix, SegWit and Taproot.
abbrev bitcoin_params : String → ℕ → ℕ → String → Bool → Params
bitcoin_params s coin purpose hrp modern = record {
  symbol = s;
  chain_type = bitcoin;
  decimals = 8;
  coin_type = coin;
  default_purpose = purpose;
  bech32_hrp = hrp;
  chain_id = 0;
  native_token = "";
  supports_seg_wit = modern;
  supports_taproot = modern;
}

-- A chain with accounts: symbol, type, decimals, coin type, chain id and native token.
abbrev account_params : String → ChainType → ℕ → ℕ → ℕ → String → Params
account_params s t places coin id token = record {
  symbol = s;
  chain_type = t;
  decimals = places;
  coin_type = coin;
  default_purpose = 44;
  bech32_hrp = "";
  chain_id = id;
  native_token = token;
  supports_seg_wit = false;
  supports_taproot = false;
}

abbrev evm_params : String → ℕ → String → Params
evm_params s id token = account_params s evm 18 60 id token

abbrev bitcoin_chains : Registry
bitcoin_chains =
    ("BTC", register (bitcoin_params "BTC" 0 84 "bc" true) (bitcoin_params "BTC" 1 84 "tb" true))
    ∷ []

abbrev litecoin_chains : Registry
litecoin_chains =
    ("LTC", register (bitcoin_params "LTC" 2 84 "ltc" true) (bitcoin_params "LTC" 1 84 "tltc" true))
    ∷ []

abbrev dogecoin_chains : Registry
dogecoin_chains =
    ("DOGE", register (bitcoin_params "DOGE" 3 44 "" false) (bitcoin_params "DOGE" 1 44 "" false))
    ∷ []

abbrev monero_chains : Registry
monero_chains =
    (
      "XMR",
      register (account_params "XMR" monero 12 128 0 "") (account_params "XMR" monero 12 128 0 ""),
    )
    ∷ []

abbrev solana_chains : Registry
solana_chains =
    (
      "SOL",
      register (account_params "SOL" solana 9 501 0 "") (account_params "SOL" solana 9 501 0 ""),
    )
    ∷ []

abbrev evm_chains : Registry
evm_chains =
    ("ETH", register (evm_params "ETH" 1 "ETH") (evm_params "ETH" 11155111 "ETH"))
    ∷ ("BSC", register (evm_params "BSC" 56 "BNB") (evm_params "BSC" 97 "BNB"))
    ∷ ("POLYGON", register (evm_params "POLYGON" 137 "POL") (evm_params "POLYGON" 80002 "POL"))
    ∷ (
      "ARBITRUM",
      register (evm_params "ARBITRUM" 42161 "ETH") (evm_params "ARBITRUM" 421614 "ETH"),
    )
    ∷ ("OPTIMISM", register (evm_params "OPTIMISM" 10 "ETH") (evm_params "OPTIMISM" 11155420 "ETH"))
    ∷ ("BASE", register (evm_params "BASE" 8453 "ETH") (evm_params "BASE" 84532 "ETH"))
    ∷ ("AVAX", register (evm_params "AVAX" 43114 "AVAX") (evm_params "AVAX" 43113 "AVAX"))
    ∷ []

abbrev pub registry : Registry
registry =
    bitcoin_chains
    ++ (litecoin_chains ++ (dogecoin_chains ++ (monero_chains ++ (solana_chains ++ evm_chains))))

abbrev on_network : Option (Network → Option Params) → Network → Option Params
on_network none n = none
on_network (some nets) n = nets n

-- `chain.Get`
unfoldable pub get : String → Network → Option Params
get s n = on_network (lookup s registry) n
