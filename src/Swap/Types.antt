-- ===== src/Swap/Types.antt =====
-- internal/swap/swap.go: the data of a swap. Times and durations are nanoseconds since an epoch
-- before every swap; a byte slice is a list of numbers, and a nil slice is the empty one.
use klingdex.Prelude.{ℕ, String, Bool, true, false, List, str_eq}
use klingdex.Chain.{Network, mainnet, testnet, unlisted}

pub data Role : Type 0 where
  initiator responder : Role

-- `none_state` is the empty string and `other` any string that is no constant of the source.
pub data State : Type 0 where
  none_state init funding funded redeemed refunded failed cancelled : State
  other : String → State

pub data Method : Type 0 where
  musig2 htlc adaptor contract : Method
  other_method : String → Method

pub data SwapError : Type 0 where
  unsupported_chain method_not_supported below_minimum above_maximum : SwapError
  invalid_state timeout_race insufficient_confirmations : SwapError
  only_initiator invalid_pub_key random_failed : SwapError

-- `NewSwap` makes an id of random bytes, in hex, and the coordinator takes the trade's id for it.
pub data SwapId : Type 0 where
  random_id : List ℕ → SwapId
  trade_id : String → SwapId

pub record Offer : Type 0 where
  pub offer_chain : String
  pub offer_amount : ℕ
  pub request_chain : String
  pub request_amount : ℕ
  pub method : Method
  pub expires_at : ℕ

pub record Swap : Type 0 where
  pub id : SwapId
  pub network : Network
  pub method : Method
  pub role : Role
  pub state : State
  pub offer : Offer
  pub created_at : ℕ
  pub initiator_lock : ℕ
  pub responder_lock : ℕ
  pub offer_chain_start_height : ℕ
  pub request_chain_start_height : ℕ
  pub offer_chain_timeout_height : ℕ
  pub request_chain_timeout_height : ℕ
  pub local_pub_key : List ℕ
  pub remote_pub_key : List ℕ
  pub aggregated_pub_key : List ℕ
  pub local_funding_tx_id : String
  pub local_funding_vout : ℕ
  pub local_funding_confirms : ℕ
  pub remote_funding_tx_id : String
  pub remote_funding_vout : ℕ
  pub remote_funding_confirms : ℕ
  pub local_offer_wallet_addr : String
  pub local_request_wallet_addr : String
  pub remote_offer_wallet_addr : String
  pub remote_request_wallet_addr : String
  pub secret : List ℕ
  pub secret_hash : List ℕ

-- `s.Network == chain.Testnet`
abbrev pub is_testnet : Network → Bool
is_testnet mainnet = false
is_testnet testnet = true
is_testnet (unlisted n) = str_eq n "testnet"

abbrev pub is_initiator : Role → Bool
is_initiator initiator = true
is_initiator responder = false
