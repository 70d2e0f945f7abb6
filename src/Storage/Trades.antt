-- ===== src/Storage/Trades.antt =====
-- internal/storage/trades.go: the trades of this node. Times are in seconds. A column that the
-- insert leaves out is NULL, which is read as the empty text or as no time.
use klingdex.Prelude.{
  ℕ, String, Bool, true, false, ◌&&◌, not, Option, none, some, List, [], ◌∷◌, ◌++◌, if◌then◌else◌,
  length, str_eq, Result, ok, err,
}
use klingdex.Tables.{
  storable, update_where, filter_where, find_where, any_where, order_with, ascending, descending,
  page,
}
use klingdex.Storage.Orders.{text_matches}

-- A state that another node sends may be none of those.
pub data TradeState : Type 0 where
  init accepted funding funded redeemed refunded failed aborted : TradeState
  other_state : String → TradeState

abbrev pub state_eq : TradeState → TradeState → Bool
state_eq init init = true
state_eq accepted accepted = true
state_eq funding funding = true
state_eq funded funded = true
state_eq redeemed redeemed = true
state_eq refunded refunded = true
state_eq failed failed = true
state_eq aborted aborted = true
state_eq (other_state s) (other_state t) = str_eq s t
state_eq _ _ = false

abbrev pub is_terminal : TradeState → Bool
is_terminal redeemed = true
is_terminal refunded = true
is_terminal failed = true
is_terminal aborted = true
is_terminal _ = false

pub record Trade : Type 0 where
  pub id : String
  pub order_id : String
  pub maker_peer_id : String
  pub taker_peer_id : String
  pub maker_pub_key : String
  pub taker_pub_key : String
  pub our_role : String
  pub method : String
  pub state : TradeState
  pub offer_chain : String
  pub offer_amount : ℕ
  pub request_chain : String
  pub request_amount : ℕ
  pub created_at : ℕ
  pub updated_at : Option ℕ
  pub completed_at : Option ℕ
  pub failure_reason : String

pub data TradeError : Type 0 where
  trade_not_found trade_exists query_failed unstorable_amount : TradeError

abbrev pub has_id : String → Trade → Bool
has_id i t = str_eq t.id i

abbrev pub inserted : Trade → Trade
inserted t = record t {
  maker_pub_key = "";
  taker_pub_key = "";
  updated_at = none;
  completed_at = none;
  failure_reason = "";
}

abbrev pub has_storable_amounts : Trade → Bool
has_storable_amounts t = storable t.offer_amount && storable t.request_amount

unfoldable pub create_trade : Trade → List Trade → Result TradeError (List Trade)
unfolding any_where
create_trade t rows =
    if has_storable_amounts t
    then (if any_where (has_id t.id) rows then err trade_exists else ok (rows ++ (inserted t ∷ [])))
    else err unstorable_amount

unfoldable pub get_trade : String → List Trade → Option Trade
unfolding find_where
get_trade i rows = find_where (has_id i) rows

unfoldable pub get_trade_by_order_id : String → List Trade → Option Trade
unfolding find_where
get_trade_by_order_id order rows = find_where (λ t. str_eq t.order_id order) rows

-- An update of one trade, which fails where there is none.
unfoldable pub update_trade : String → (Trade → Trade) → List Trade → Result TradeError (List Trade)
unfolding any_where update_where
update_trade i f rows =
    if any_where (has_id i) rows then ok (update_where (has_id i) f rows) else err trade_not_found

-- The time of completion is set in a terminal state, and else kept.
abbrev pub moved : ℕ → TradeState → Trade → Trade
moved now s t = record t {
  state = s;
  updated_at = some now;
  completed_at = if is_terminal s then some now else t.completed_at;
}

unfoldable pub update_trade_state :
    ℕ → String → TradeState → List Trade → Result TradeError (List Trade)
unfolding update_trade
update_trade_state now i s rows = update_trade i (moved now s) rows

unfoldable pub update_trade_failure :
    ℕ → String → String → List Trade → Result TradeError (List Trade)
unfolding update_trade
update_trade_failure now i reason rows =
    update_trade i
      (λ t. record t {
        state = failed;
        failure_reason = reason;
        updated_at = some now;
        completed_at = some now;
      })
      rows

unfoldable pub update_trade_pub_key :
    ℕ → String → Bool → String → List Trade → Result TradeError (List Trade)
unfolding update_trade
update_trade_pub_key now i is_maker key rows =
    update_trade i
      (λ t.
        if is_maker
        then record t { maker_pub_key = key; updated_at = some now }
        else record t { taker_pub_key = key; updated_at = some now })
      rows

-- An empty text or a missing value selects everything.
pub record TradeFilter : Type 0 where
  pub state : Option TradeState
  pub our_role : Option String
  pub method : String
  pub maker_peer_id : String
  pub taker_peer_id : String
  pub limit : ℕ
  pub offset : ℕ

state_matches : Option TradeState → TradeState → Bool
state_matches none s = true
state_matches (some wanted) s = state_eq s wanted

role_matches : Option String → String → Bool
role_matches none s = true
role_matches (some wanted) s = str_eq s wanted

unfoldable pub trade_matches : TradeFilter → Trade → Bool
unfolding state_matches role_matches
trade_matches f t =
    state_matches f.state t.state
    && (role_matches f.our_role t.our_role
        && (text_matches f.method t.method
            && (text_matches f.maker_peer_id t.maker_peer_id
                && text_matches f.taker_peer_id t.taker_peer_id)))

of_page : Option (List Trade) → Result TradeError (List Trade)
of_page none = err query_failed
of_page (some rows) = ok rows

unfoldable pub list_trades : TradeFilter → List Trade → Result TradeError (List Trade)
unfolding of_page trade_matches
list_trades f rows = of_page (
    page f.limit f.offset
      (order_with (descending (λ t. t.created_at)) (filter_where (trade_matches f) rows)))

unfoldable pub get_active_trades : List Trade → List Trade
unfolding filter_where order_with
get_active_trades rows =
    order_with (ascending (λ t. t.created_at)) (filter_where (λ t. not (is_terminal t.state)) rows)

unfoldable pub count_trades : Option TradeState → List Trade → ℕ
unfolding state_matches filter_where
count_trades s rows = length (filter_where (λ t. state_matches s t.state) rows)

unfoldable pub delete_trade : String → List Trade → Result TradeError (List Trade)
unfolding any_where filter_where
delete_trade i rows =
    if any_where (has_id i) rows
    then ok (filter_where (λ t. not (has_id i t)) rows)
    else err trade_not_found
