-- ===== src/Storage/SwapLegs.antt =====
-- internal/storage/swap_legs.go: the two legs of a swap. Times are in seconds. A column that is
-- NULL is read as the empty text or as 0, and the JSON of the method is its text.
use klingdex.Prelude.{
  ℕ, String, Bool, true, false, ◌&&◌, not, Option, none, some, List, [], ◌∷◌, ◌++◌, if◌then◌else◌,
  str_eq, Result, ok, err,
}
use klingdex.Tables.{
  storable, update_where, filter_where, find_where, any_where, order_with, ascending, descending,
  page,
}
use klingdex.Storage.Orders.{text_matches}

pub data SwapLegState : Type 0 where
  init pending funding funded redeemed refunded failed : SwapLegState

abbrev pub state_eq : SwapLegState → SwapLegState → Bool
state_eq init init = true
state_eq pending pending = true
state_eq funding funding = true
state_eq funded funded = true
state_eq redeemed redeemed = true
state_eq refunded refunded = true
state_eq failed failed = true
state_eq _ _ = false

pub data SwapLegType : Type 0 where
  offer request : SwapLegType

abbrev pub type_eq : SwapLegType → SwapLegType → Bool
type_eq offer offer = true
type_eq request request = true
type_eq _ _ = false

-- As texts: "offer" stands before "request".
abbrev type_rank : SwapLegType → ℕ
type_rank offer = 0
type_rank request = 1

pub data SwapLegRole : Type 0 where
  sender receiver : SwapLegRole

abbrev pub role_eq : SwapLegRole → SwapLegRole → Bool
role_eq sender sender = true
role_eq receiver receiver = true
role_eq _ _ = false

pub record SwapLeg : Type 0 where
  pub id : String
  pub trade_id : String
  pub leg_type : SwapLegType
  pub chain : String
  pub amount : ℕ
  pub our_role : SwapLegRole
  pub state : SwapLegState
  pub funding_tx_id : String
  pub funding_vout : ℕ
  pub funding_confirms : ℕ
  pub funding_address : String
  pub redeem_tx_id : String
  pub refund_tx_id : String
  pub timeout_height : ℕ
  pub timeout_timestamp : ℕ
  pub method_data : String
  pub created_at : ℕ
  pub updated_at : Option ℕ

pub data SwapLegError : Type 0 where
  swap_leg_not_found swap_leg_exists query_failed unstorable_amount : SwapLegError

abbrev has_id : String → SwapLeg → Bool
has_id i l = str_eq l.id i

abbrev of_trade : String → SwapLeg → Bool
of_trade t l = str_eq l.trade_id t

-- The funding transaction, and those that spend it, are no columns of the insert.
abbrev inserted : SwapLeg → SwapLeg
inserted l = record l {
  funding_tx_id = "";
  funding_vout = 0;
  funding_confirms = 0;
  redeem_tx_id = "";
  refund_tx_id = "";
  updated_at = none;
}

unfoldable pub create_swap_leg : SwapLeg → List SwapLeg → Result SwapLegError (List SwapLeg)
unfolding any_where
create_swap_leg l rows =
    if storable l.amount
    then (if any_where (has_id l.id) rows
        then err swap_leg_exists
        else ok (rows ++ (inserted l ∷ [])))
    else err unstorable_amount

unfoldable pub get_swap_leg : String → List SwapLeg → Option SwapLeg
unfolding find_where
get_swap_leg i rows = find_where (has_id i) rows

unfoldable pub get_swap_legs_by_trade_id : String → List SwapLeg → List SwapLeg
unfolding filter_where order_with
get_swap_legs_by_trade_id t rows =
    order_with (ascending (λ l. type_rank l.leg_type)) (filter_where (of_trade t) rows)

unfoldable pub get_swap_leg_by_trade_and_type : String → SwapLegType → List SwapLeg → Option SwapLeg
unfolding find_where
get_swap_leg_by_trade_and_type t kind rows =
    find_where (λ l. of_trade t l && type_eq l.leg_type kind) rows

-- An update of one leg, which fails where there is none.
unfoldable pub update_swap_leg :
    ℕ → String → (SwapLeg → SwapLeg) → List SwapLeg → Result SwapLegError (List SwapLeg)
unfolding any_where update_where
update_swap_leg now i f rows =
    if any_where (has_id i) rows
    then ok (update_where (has_id i) (λ l. record (f l) { updated_at = some now }) rows)
    else err swap_leg_not_found

unfoldable pub update_swap_leg_state :
    ℕ → String → SwapLegState → List SwapLeg → Result SwapLegError (List SwapLeg)
unfolding update_swap_leg
update_swap_leg_state now i s rows = update_swap_leg now i (λ l. record l { state = s }) rows

unfoldable pub update_swap_leg_funding :
    ℕ → String → String → ℕ → String → List SwapLeg → Result SwapLegError (List SwapLeg)
unfolding update_swap_leg
update_swap_leg_funding now i tx vout address rows =
    update_swap_leg now i
      (λ l. record l {
        funding_tx_id = tx;
        funding_vout = vout;
        funding_address = address;
        state = funding;
      })
      rows

unfoldable pub update_swap_leg_confirmations :
    ℕ → String → ℕ → List SwapLeg → Result SwapLegError (List SwapLeg)
unfolding update_swap_leg
update_swap_leg_confirmations now i n rows =
    update_swap_leg now i (λ l. record l { funding_confirms = n }) rows

unfoldable pub update_swap_leg_redeemed :
    ℕ → String → String → List SwapLeg → Result SwapLegError (List SwapLeg)
unfolding update_swap_leg
update_swap_leg_redeemed now i tx rows =
    update_swap_leg now i (λ l. record l { state = redeemed; redeem_tx_id = tx }) rows

unfoldable pub update_swap_leg_refunded :
    ℕ → String → String → List SwapLeg → Result SwapLegError (List SwapLeg)
unfolding update_swap_leg
update_swap_leg_refunded now i tx rows =
    update_swap_leg now i (λ l. record l { state = refunded; refund_tx_id = tx }) rows

unfoldable pub update_swap_leg_method_data :
    ℕ → String → String → List SwapLeg → Result SwapLegError (List SwapLeg)
unfolding update_swap_leg
update_swap_leg_method_data now i text rows =
    update_swap_leg now i (λ l. record l { method_data = text }) rows

-- An empty text or a missing value selects everything.
pub record SwapLegFilter : Type 0 where
  pub trade_id : String
  pub chain : String
  pub state : Option SwapLegState
  pub our_role : Option SwapLegRole
  pub leg_type : Option SwapLegType
  pub limit : ℕ
  pub offset : ℕ

abbrev wanted : {A : Type 0} → (A → A → Bool) → Option A → A → Bool
wanted eq none a = true
wanted eq (some b) a = eq a b

unfoldable pub leg_matches : SwapLegFilter → SwapLeg → Bool
leg_matches f l =
    text_matches f.trade_id l.trade_id
    && (text_matches f.chain l.chain
        && (wanted state_eq f.state l.state
            && (wanted role_eq f.our_role l.our_role && wanted type_eq f.leg_type l.leg_type)))

abbrev of_page : Option (List SwapLeg) → Result SwapLegError (List SwapLeg)
of_page none = err query_failed
of_page (some rows) = ok rows

unfoldable pub list_swap_legs : SwapLegFilter → List SwapLeg → Result SwapLegError (List SwapLeg)
unfolding leg_matches filter_where order_with
list_swap_legs f rows = of_page (
    page f.limit f.offset
      (order_with (descending (λ l. l.created_at)) (filter_where (leg_matches f) rows)))

abbrev is_finished : SwapLegState → Bool
is_finished redeemed = true
is_finished refunded = true
is_finished failed = true
is_finished _ = false

unfoldable pub get_pending_swap_legs : List SwapLeg → List SwapLeg
unfolding filter_where order_with
get_pending_swap_legs rows =
    order_with (ascending (λ l. l.created_at)) (filter_where (λ l. not (is_finished l.state)) rows)

unfoldable pub delete_swap_leg : String → List SwapLeg → Result SwapLegError (List SwapLeg)
unfolding any_where filter_where
delete_swap_leg i rows =
    if any_where (has_id i) rows
    then ok (filter_where (λ l. not (has_id i l)) rows)
    else err swap_leg_not_found

unfoldable pub delete_swap_legs_by_trade_id : String → List SwapLeg → List SwapLeg
unfolding filter_where
delete_swap_legs_by_trade_id t rows = filter_where (λ l. not (of_trade t l)) rows
