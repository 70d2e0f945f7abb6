-- ===== src/Config/DaoAddresses.antt =====
-- internal/config/config.go: where the DAO's fees go.
use klingdex.Prelude.{
  String, Bool, true, false, ◌≡◌, refl, none, some, if◌then◌else◌, str_eq, Option-cases, arith, inl,
  inr,
}
use klingdex.Config.Coins.{CoinType, bitcoin, monero, evm, solana, get_coin}

pub record DaoAddresses : Type 0 where
  pub btc : String
  pub ltc : String
  pub doge : String
  pub xmr : String
  pub evm_address : String
  pub sol : String

abbrev mainnet_dao_addresses : DaoAddresses
mainnet_dao_addresses = record {
  btc = "";
  ltc = "";
  doge = "";
  xmr = "";
  evm_address = "";
  sol = "";
}

abbrev testnet_dao_addresses : DaoAddresses
testnet_dao_addresses = record {
  btc = "tb1qtgy7uafh0eurh04eztdzjfn2ujn9ds6ls0zsk6";
  ltc = "tltc1qgmwwayvwdrj2kqt6gk7drwzh9ssmrysw8t90us";
  doge = "noBHyVeJcEB7JMrV2CDKP4UKuQMGCmZspT";
  xmr =
      "9ujeXrjzf7bfeK3KZdCqnYaMwZVFuXemPU8Ubw335rj2FN1CdMiWNyFSe1bqSKbAWme1H6bFW8WMeaSzhoSv7YCK72E2sbb";
  evm_address = "0x37e565Bab0c11756806480102E09871f33403D8d";
  sol = "GsbwXfJraMomNxBcjYLcG3mxkBUiyWXAB32fGbSMQRdW";
}

-- `NewExchangeConfig`: whether the network is the test network.
dao_addresses : Bool → DaoAddresses
dao_addresses true = testnet_dao_addresses
dao_addresses false = mainnet_dao_addresses

address_by_type : DaoAddresses → String → CoinType → String
address_by_type d symbol bitcoin =
    if str_eq symbol "BTC"
    then d.btc
    else (if str_eq symbol "LTC" then d.ltc else (if str_eq symbol "DOGE" then d.doge else ""))
address_by_type d symbol monero = d.xmr
address_by_type d symbol evm = d.evm_address
address_by_type d symbol solana = d.sol

unfoldable pub get_dao_address : Bool → String → String
unfolding dao_addresses address_by_type
get_dao_address test symbol = elim (get_coin symbol) [
  | none ↦ ""
  | some c ↦ address_by_type (dao_addresses test) symbol c.coin_type
]

mainnet_by_type :
    (symbol : String) (t : CoinType) → address_by_type mainnet_dao_addresses symbol t ≡ ""
unfolding address_by_type
mainnet_by_type symbol bitcoin = ground arith
mainnet_by_type symbol monero = refl
mainnet_by_type symbol evm = refl
mainnet_by_type symbol solana = refl

-- On the main network no coin has an address for the DAO's fees.
pub get_dao_address_main : (symbol : String) → get_dao_address false symbol ≡ ""
unfolding get_dao_address dao_addresses
get_dao_address_main symbol = elim (Option-cases (get_coin symbol)) [
  | inl e ↦ rw (get_dao_address, e) refl
  | inr (c, e) ↦ rw (get_dao_address, e) (mainnet_by_type symbol c.coin_type)
]
