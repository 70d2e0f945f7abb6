-- ===== src/Swap/Coordinator/Timeouts.antt =====
-- internal/swap/coordinator_timeout.go: the monitor that looks for swaps whose timeout height is
-- reached, and what a node tells of the timeouts. `derive` is the wallet, which may be missing.
pub mod Monitor
use klingdex.Prelude.{
  ℕ, ◌+◌, ◌-◌, ◌*◌, ◌%◌, ◌^◌, String, Bool, true, false, not, ◌&&◌, ◌||◌, Option, none, some, List,
  [], ◌∷◌, ◌++◌, map, lookup, ltb, leb, Result, ok, err, ◌>>=◌, if◌then◌else◌, str_eq,
}
use klingdex.Swap.Bech32.{codes}
use klingdex.Swap.HtlcScript.{of_option}
use klingdex.Swap.Crypto.{Crypto}
use klingdex.Swap.Txscript.{Txscript}
use klingdex.Swap.Taproot.{TaprootScriptTree, build_taproot_script_tree}
use klingdex.Swap.Timelocks.{get_timeout_blocks}
use klingdex.Swap.Musig2Lib.{Musig2Lib}
use klingdex.Swap.Musig2.{Musig2Session}
use klingdex.Swap.Musig2.Address.{aggregated_pub_key}
use klingdex.Swap.Types.{State, Role, funding, funded, refunded, Swap, is_initiator}
use klingdex.Swap.State.{state_eq}
use klingdex.Swap.Spending.{TxLib, build_refund_tx_from_tree}
use klingdex.Swap.Coordinator.{
  CoordError, no_musig2, bad_chain, no_funding, no_wallet, no_script, no_backend, nil_pointer,
  swap_not_found, musig2_error, Backend, Backends, get_block_height, ChainMusig2, Musig2Data,
  ActiveSwap, Coordinator, Reply, fail, done, proceed, when, wrap, with_swap,
}
use klingdex.Swap.Coordinator.HtlcSpend.{Derive, send, spend_params, rate_or_default, hour}
use klingdex.Swap.Coordinator.Refund.{build_and_broadcast_refund}

-- `int32(a) - int32(b)`, as the uint32 with the same bits.
abbrev pub difference : ℕ → ℕ → ℕ
difference a b = (a + 2 ^ 32 - b) % 2 ^ 32

pub record TimeoutCheckResult : Type 0 where
  pub trade_id : String
  pub chain : String
  pub current_height : ℕ
  pub timeout_height : ℕ
  pub blocks_remaining : ℕ
  pub can_refund : Bool
  pub refund_broadcast : Bool
  pub refund_tx_id : String
  pub error : Option CoordError

abbrev unchecked : String → String → ℕ → TimeoutCheckResult
unchecked trade symbol timeout = record {
  trade_id = trade;
  chain = symbol;
  current_height = 0;
  timeout_height = timeout;
  blocks_remaining = 0;
  can_refund = false;
  refund_broadcast = false;
  refund_tx_id = "";
  error = none;
}

-- What the result tells of the refund.
abbrev with_refund : TimeoutCheckResult → Result CoordError String → TimeoutCheckResult
with_refund r (ok id) = record r { refund_broadcast = true; refund_tx_id = id }
with_refund r (err e) = record r { error = some e }

-- What `GetSwapTimeoutInfo` tells of a chain: the height, the blocks that are left and whether a
-- refund is possible, where a backend answers.
pub record ChainInfo : Type 0 where
  pub chain : String
  pub timeout_height : ℕ
  pub now : Option (ℕ × ℕ × Bool)

height_info : ℕ → Result CoordError ℕ → Option (ℕ × ℕ × Bool)
height_info timeout (err e) = none
height_info timeout (ok h) = some (h, difference timeout h, leb timeout h)

unfoldable pub chain_info : Backends → String → ℕ → Option ChainInfo
unfolding height_info
chain_info bs symbol timeout =
    if ltb 0 timeout
    then some (record {
      chain = symbol;
      timeout_height = timeout;
      now = height_info timeout (get_block_height bs symbol);
    })
    else none

pub record TimeoutInfo : Type 0 where
  pub trade_id : String
  pub state : State
  pub role : Role
  pub offer_chain : Option ChainInfo
  pub request_chain : Option ChainInfo

unfoldable pub timeout_info : Backends → String → Swap → TimeoutInfo
unfolding chain_info
timeout_info bs trade s = record {
  trade_id = trade;
  state = s.state;
  role = s.role;
  offer_chain = chain_info bs s.offer.offer_chain s.offer_chain_timeout_height;
  request_chain = chain_info bs s.offer.request_chain s.request_chain_timeout_height;
}

module _ {c : Crypto} (l : Musig2Lib c) (t : Txscript) (x : TxLib c) where
  open c use {pub_key}

  abbrev of_refund : TimeoutCheckResult → Reply l t String → Reply l t TimeoutCheckResult
  of_refund r reply = record {
    active = reply.active;
    emitted = reply.emitted;
    result = ok (with_refund r reply.result);
  }

  unfoldable pub check_timeout_for_chain :
      Backends → Derive l t x → String → ActiveSwap l t → String → ℕ → Reply l t TimeoutCheckResult
  unfolding build_and_broadcast_refund
  check_timeout_for_chain bs derive trade a symbol timeout =
      let r = unchecked trade symbol timeout in
      elim (get_block_height bs symbol) [
        | err e ↦ done l t a (record r { error = some e })
        | ok height ↦
            let r' = record r {
              current_height = height;
              blocks_remaining = difference timeout height;
            } in
            if leb timeout height
            then of_refund (record r' { can_refund = true })
                (build_and_broadcast_refund l t x bs derive trade symbol a)
            else done l t a r'
      ]

  -- The swap of one trade in `CheckTimeouts`: the chain where this party has locked its funds.
  unfoldable pub check_swap :
      Backends → Derive l t x → String → ActiveSwap l t → Option (Reply l t TimeoutCheckResult)
  unfolding check_timeout_for_chain
  check_swap bs derive trade a =
      if state_eq a.swap.state funded || state_eq a.swap.state funding
      then (if is_initiator a.swap.role && ltb 0 a.swap.offer_chain_timeout_height
          then some (
              check_timeout_for_chain bs derive trade a a.swap.offer.offer_chain
                a.swap.offer_chain_timeout_height)
          else (if not (is_initiator a.swap.role) && ltb 0 a.swap.request_chain_timeout_height
              then some (
                  check_timeout_for_chain bs derive trade a a.swap.offer.request_chain
                    a.swap.request_chain_timeout_height)
              else none))
      else none

  abbrev pub left_by : ActiveSwap l t → Option (Reply l t TimeoutCheckResult) → ActiveSwap l t
  left_by a none = a
  left_by a (some r) = r.active

  abbrev events_of : String → Option (Reply l t TimeoutCheckResult) → List (String × String)
  events_of trade none = []
  events_of trade (some r) = map (λ e. (trade, e)) r.emitted

  abbrev results_of :
      Option (Reply l t TimeoutCheckResult) → List (Result CoordError TimeoutCheckResult)
  results_of none = []
  results_of (some r) = r.result ∷ []

  -- The loop over the swaps, which Go runs in any order.
  unfoldable pub check_all :
      Backends
      → Derive l t x
      → List (String × ActiveSwap l t)
      → List (String × ActiveSwap l t)
        × List (String × String)
        × List (Result CoordError TimeoutCheckResult)
  unfolding check_swap
  check_all bs derive [] = ([], [], [])
  check_all bs derive ((trade, a) ∷ m) =
      let r = check_swap bs derive trade a in
      let (rest, events, results) = check_all bs derive m in
      ((trade, left_by a r) ∷ rest, events ++ events_of trade r, results_of r ++ results)

  unfoldable pub check_timeouts :
      Backends
      → Derive l t x
      → Coordinator l t
      → Coordinator l t × List (Result CoordError TimeoutCheckResult)
  unfolding check_all
  check_timeouts bs derive s =
      let (swaps, events, results) = check_all bs derive s.swaps in
      (record s { swaps = swaps; events = events ++ s.events }, results)

  unfoldable pub get_swap_timeout_info :
      Backends → String → Coordinator l t → Result CoordError TimeoutInfo
  unfolding timeout_info
  get_swap_timeout_info bs trade s = elim (lookup trade s.swaps) [
    | none ↦ err swap_not_found
    | some a ↦ ok (timeout_info bs trade a.swap)
  ]

  unfoldable pub force_refund :
      Backends
      → Derive l t x
      → String
      → String
      → Coordinator l t
      → Coordinator l t × Result CoordError String
  unfolding build_and_broadcast_refund with_swap
  force_refund bs derive trade symbol s =
      with_swap l t trade (build_and_broadcast_refund l t x bs derive trade symbol) s
