-- ===== src/Storage/Swaps.antt =====
-- internal/storage/swaps.go: the copies of the active swaps from which a node recovers. Times are
-- in seconds, with 0 for Go's zero time, and the JSON of the method is its text.
pub mod Recovery
use klingdex.Prelude.{
  ℕ, ◌+◌, ◌%◌, ◌^◌, String, Bool, true, false, ◌&&◌, ◌||◌, not, Option, none, some, List, [], ◌∷◌,
  ltb, leb, ◌==◌, if◌then◌else◌, length, str_eq, Result, ok, err, take,
}
use klingdex.Tables.{
  storable, update_where, filter_where, find_where, any_where, upsert, order_with, ascending,
  descending, page,
}
use klingdex.Swap.HtlcScript.{of_option}

pub data SwapState : Type 0 where
  init funding funded signing redeemed refunded failed cancelled : SwapState
  other_state : String → SwapState

abbrev pub is_terminal : SwapState → Bool
is_terminal redeemed = true
is_terminal refunded = true
is_terminal failed = true
is_terminal cancelled = true
is_terminal _ = false

-- `state IN ('funded', 'signing')`
abbrev is_locked : SwapState → Bool
is_locked funded = true
is_locked signing = true
is_locked _ = false

pub record SwapRecord : Type 0 where
  pub trade_id : String
  pub order_id : String
  pub maker_peer_id : String
  pub taker_peer_id : String
  pub our_role : String
  pub is_maker : Bool
  pub offer_chain : String
  pub offer_amount : ℕ
  pub request_chain : String
  pub request_amount : ℕ
  pub state : SwapState
  pub method_data : String
  pub local_funding_tx_id : String
  pub local_funding_vout : ℕ
  pub remote_funding_tx_id : String
  pub remote_funding_vout : ℕ
  pub timeout_height : ℕ
  pub request_timeout_height : ℕ
  pub timeout_timestamp : ℕ
  pub redeem_tx_id : String
  pub refund_tx_id : String
  pub failure_reason : String
  pub created_at : ℕ
  pub updated_at : ℕ
  pub completed_at : ℕ

pub data SwapError : Type 0 where
  swap_not_found unstorable_amount : SwapError

abbrev pub has_trade : String → SwapRecord → Bool
has_trade t s = str_eq s.trade_id t

abbrev pub stamped : ℕ → SwapRecord → SwapRecord
stamped now s = record s {
  created_at = if s.created_at == 0 then now else s.created_at;
  updated_at = now;
}

-- What is set on a conflict: all but who trades what with whom, and since when.
abbrev pub overwritten : ℕ → SwapRecord → SwapRecord → SwapRecord
overwritten now s old = record old {
  state = s.state;
  method_data = s.method_data;
  local_funding_tx_id = s.local_funding_tx_id;
  local_funding_vout = s.local_funding_vout;
  remote_funding_tx_id = s.remote_funding_tx_id;
  remote_funding_vout = s.remote_funding_vout;
  timeout_height = s.timeout_height;
  request_timeout_height = s.request_timeout_height;
  timeout_timestamp = s.timeout_timestamp;
  redeem_tx_id = s.redeem_tx_id;
  refund_tx_id = s.refund_tx_id;
  failure_reason = s.failure_reason;
  updated_at = now;
  completed_at = s.completed_at;
}

unfoldable pub save_swap : ℕ → SwapRecord → List SwapRecord → Result SwapError (List SwapRecord)
unfolding upsert
save_swap now s rows =
    if storable s.offer_amount && storable s.request_amount
    then ok (upsert (has_trade s.trade_id) (overwritten now s) (stamped now s) rows)
    else err unstorable_amount

unfoldable pub read_swap : String → List SwapRecord → Result SwapError SwapRecord
unfolding find_where
read_swap t rows = of_option swap_not_found (find_where (has_trade t) rows)

abbrev pub is_pending : SwapRecord → Bool
is_pending s = not (is_terminal s.state)

unfoldable pub get_pending_swaps : List SwapRecord → List SwapRecord
unfolding filter_where order_with
get_pending_swaps rows = order_with (ascending (λ s. s.created_at)) (filter_where is_pending rows)

-- The sum of the heights is a uint32.
unfoldable pub get_swaps_nearing_timeout : ℕ → ℕ → List SwapRecord → List SwapRecord
unfolding filter_where order_with
get_swaps_nearing_timeout current margin rows = order_with (ascending (λ s. s.timeout_height)) (
    filter_where
      (λ s.
        is_locked s.state
        && (ltb 0 s.timeout_height && leb s.timeout_height ((current + margin) % 2 ^ 32)))
      rows)

unfoldable pub get_swaps_past_timeout : ℕ → List SwapRecord → List SwapRecord
unfolding filter_where order_with
get_swaps_past_timeout current rows = order_with (ascending (λ s. s.timeout_height)) (
    filter_where
      (λ s. is_locked s.state && (ltb 0 s.timeout_height && ltb s.timeout_height current)) rows)

-- An update of one swap, which fails where there is none.
unfoldable pub update_swap :
    String → (SwapRecord → SwapRecord) → List SwapRecord → Result SwapError (List SwapRecord)
unfolding any_where update_where
update_swap t f rows =
    if any_where (has_trade t) rows
    then ok (update_where (has_trade t) f rows)
    else err swap_not_found

-- `CASE WHEN ? > 0`: a terminal state sets the time, if the clock is not at 0.
unfoldable pub update_swap_state :
    ℕ → String → SwapState → List SwapRecord → Result SwapError (List SwapRecord)
unfolding update_swap
update_swap_state now t s rows =
    update_swap t
      (λ r. record r {
        state = s;
        updated_at = now;
        completed_at = if is_terminal s && ltb 0 now then now else r.completed_at;
      })
      rows

unfoldable pub update_swap_method_data :
    ℕ → String → String → List SwapRecord → Result SwapError (List SwapRecord)
unfolding update_swap
update_swap_method_data now t text rows =
    update_swap t (λ r. record r { method_data = text; updated_at = now }) rows

abbrev funded_by : ℕ → Bool → String → ℕ → SwapRecord → SwapRecord
funded_by now true tx vout r = record r {
  local_funding_tx_id = tx;
  local_funding_vout = vout;
  updated_at = now;
}
funded_by now false tx vout r = record r {
  remote_funding_tx_id = tx;
  remote_funding_vout = vout;
  updated_at = now;
}

unfoldable pub update_swap_funding :
    ℕ → String → Bool → String → ℕ → List SwapRecord → Result SwapError (List SwapRecord)
unfolding update_swap
update_swap_funding now t is_local tx vout rows =
    update_swap t (funded_by now is_local tx vout) rows

unfoldable pub delete_swap : String → List SwapRecord → List SwapRecord
unfolding filter_where
delete_swap t rows = filter_where (λ s. not (has_trade t s)) rows

unfoldable pub list_swaps : ℕ → Bool → List SwapRecord → List SwapRecord
unfolding filter_where order_with
list_swaps limit include_completed rows =
    let found =
      order_with (descending (λ s. s.updated_at))
        (if include_completed then rows else filter_where is_pending rows) in
    if limit == 0 then found else take limit found

-- The pending and the completed ones.
unfoldable pub swap_count : List SwapRecord → ℕ × ℕ
unfolding filter_where
swap_count rows =
    (length (filter_where is_pending rows), length (filter_where (λ s. is_terminal s.state) rows))
