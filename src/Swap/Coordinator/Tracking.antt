-- ===== src/Swap/Coordinator/Tracking.antt =====
-- internal/swap/coordinator_funding.go and coordinator_complete.go: the funding transactions that
-- a swap records, their confirmations, and its end.
use klingdex.Prelude.{
  ℕ, String, Bool, true, false, ◌&&◌, Option, none, some, Result, ok, err, if◌then◌else◌, str_eq,
}
use klingdex.Swap.Crypto.{Crypto}
use klingdex.Swap.Txscript.{Txscript}
use klingdex.Swap.Musig2Lib.{Musig2Lib}
use klingdex.Swap.Types.{init, funding, funded, redeemed, refunded, Swap, SwapError}
use klingdex.Swap.State.{state_eq, transition_to}
use klingdex.Swap.Heights.{can_refund_by_block, blocks_until_refund}
use klingdex.Swap.Confirmations.{
  local_chain, remote_chain, is_funding_confirmed, update_local_confirmations,
  update_remote_confirmations,
}
use klingdex.Swap.Coordinator.{
  CoordError, swap_error, cannot_refund_yet, Backends, get_block_height, get_confirmations, or_zero,
  ActiveSwap, Reply, fail, done, announce,
}

-- An error of the backend leaves the count as it was.
unfoldable pub count_local : Result CoordError ℕ → Swap → Swap
count_local (ok n) s = update_local_confirmations s n
count_local (err _) s = s

unfoldable pub count_remote : Result CoordError ℕ → Swap → Swap
count_remote (ok n) s = update_remote_confirmations s n
count_remote (err _) s = s

unfoldable pub refresh_counts : Backends → Swap → Swap
unfolding count_local count_remote
refresh_counts bs s =
    let s' =
      if str_eq s.local_funding_tx_id ""
      then s
      else count_local (get_confirmations bs (local_chain s) s.local_funding_tx_id) s in
    if str_eq s'.remote_funding_tx_id ""
    then s'
    else count_remote (get_confirmations bs (remote_chain s') s'.remote_funding_tx_id) s'

unfoldable pub record_funding : String → ℕ → Bool → Swap → Swap
record_funding tx vout true s = record s { local_funding_tx_id = tx; local_funding_vout = vout }
record_funding tx vout false s = record s { remote_funding_tx_id = tx; remote_funding_vout = vout }

module _ {c : Crypto} (l : Musig2Lib c) (t : Txscript) where
  abbrev pub with_swap_of : ActiveSwap l t → Swap → ActiveSwap l t
  with_swap_of a s = record a { swap = s }

  -- A transition, and then an event; a refused one returns its error.
  unfoldable pub move : String → ActiveSwap l t → Swap × Option SwapError → Reply l t (Unit {0})
  move event a (s, some e) = fail l t (with_swap_of a s) (swap_error e)
  move event a (s, none) = announce l t event (with_swap_of a s) tt

  unfoldable pub set_funding_tx : String → ℕ → Bool → ActiveSwap l t → Reply l t (Unit {0})
  unfolding move record_funding
  set_funding_tx tx vout is_local a =
      let s = record_funding tx vout is_local a.swap in
      if state_eq s.state init
      then move "funding_set" a (transition_to s funding)
      else announce l t "funding_set" (with_swap_of a s) tt

  unfoldable pub update_confirmations : Backends → ActiveSwap l t → Reply l t (Unit {0})
  unfolding move refresh_counts
  update_confirmations bs a =
      let s = refresh_counts bs a.swap in
      if state_eq s.state funding && is_funding_confirmed s
      then move "funding_confirmed" a (transition_to s funded)
      else done l t (with_swap_of a s) tt

  unfoldable pub complete_swap : ActiveSwap l t → Reply l t (Unit {0})
  unfolding move
  complete_swap a = move "swap_completed" a (transition_to a.swap redeemed)

  -- The error tells the blocks that are left from the offer chain's height, for both roles.
  unfoldable pub refund_swap : Backends → ActiveSwap l t → Reply l t (Unit {0})
  unfolding move
  refund_swap bs a =
      let offer_height = or_zero (get_block_height bs a.swap.offer.offer_chain) in
      let request_height = or_zero (get_block_height bs a.swap.offer.request_chain) in
      if can_refund_by_block a.swap offer_height request_height
      then move "swap_refunded" a (transition_to a.swap refunded)
      else fail l t a (cannot_refund_yet (blocks_until_refund a.swap offer_height))
