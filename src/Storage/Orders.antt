-- ===== src/Storage/Orders.antt =====
-- internal/storage/orders.go: the orders of this node and of others. Times are in seconds, and the
-- JSON text of the methods is the list that it stands for.
use klingdex.Prelude.{
  ℕ, String, Bool, true, false, ◌&&◌, Option, none, some, List, [], ◌∷◌, ◌++◌, ltb, if◌then◌else◌,
  length, str_eq, Result, ok, err,
}
use klingdex.Tables.{
  storable, update_where, filter_where, find_where, any_where, upsert, order_with, descending, page,
}

pub data OrderStatus : Type 0 where
  open_order matched completed cancelled expired failed : OrderStatus
  other_status : String → OrderStatus

abbrev pub status_eq : OrderStatus → OrderStatus → Bool
status_eq open_order open_order = true
status_eq matched matched = true
status_eq completed completed = true
status_eq cancelled cancelled = true
status_eq expired expired = true
status_eq failed failed = true
status_eq (other_status s) (other_status t) = str_eq s t
status_eq _ _ = false

pub record Order : Type 0 where
  pub id : String
  pub peer_id : String
  pub status : OrderStatus
  pub is_local : Bool
  pub offer_chain : String
  pub offer_amount : ℕ
  pub request_chain : String
  pub request_amount : ℕ
  pub preferred_methods : List String
  pub created_at : ℕ
  pub expires_at : Option ℕ
  pub updated_at : Option ℕ
  pub signature : String

pub data OrderError : Type 0 where
  order_not_found order_exists query_failed unstorable_amount : OrderError

abbrev pub has_id : String → Order → Bool
has_id i o = str_eq o.id i

-- The time of an update is no column of the insert.
abbrev pub inserted : Order → Order
inserted o = record o { updated_at = none }

abbrev pub has_storable_amounts : Order → Bool
has_storable_amounts o = storable o.offer_amount && storable o.request_amount

unfoldable pub create_order : Order → List Order → Result OrderError (List Order)
unfolding any_where
create_order o rows =
    if has_storable_amounts o
    then (if any_where (has_id o.id) rows then err order_exists else ok (rows ++ (inserted o ∷ [])))
    else err unstorable_amount

-- Of an order that is there, only the status and the expiry are set.
abbrev pub merged : Order → Order → Order
merged o old = record old { status = o.status; expires_at = o.expires_at }

unfoldable pub save_order : Order → List Order → Result OrderError (List Order)
unfolding upsert
save_order o rows =
    if has_storable_amounts o
    then ok (upsert (has_id o.id) (merged o) (inserted o) rows)
    else err unstorable_amount

unfoldable pub get_order : String → List Order → Option Order
unfolding find_where
get_order i rows = find_where (has_id i) rows

unfoldable pub update_order_status :
    ℕ → String → OrderStatus → List Order → Result OrderError (List Order)
unfolding any_where update_where
update_order_status now i s rows =
    if any_where (has_id i) rows
    then ok (update_where (has_id i) (λ o. record o { status = s; updated_at = some now }) rows)
    else err order_not_found

-- An empty text or a missing value selects everything.
pub record OrderFilter : Type 0 where
  pub status : Option OrderStatus
  pub offer_chain : String
  pub request_chain : String
  pub peer_id : String
  pub is_local : Option Bool
  pub limit : ℕ
  pub offset : ℕ

abbrev any_order : OrderFilter
any_order = record {
  status = none;
  offer_chain = "";
  request_chain = "";
  peer_id = "";
  is_local = none;
  limit = 0;
  offset = 0;
}

abbrev pub text_matches : String → String → Bool
text_matches wanted s = if str_eq wanted "" then true else str_eq s wanted

status_matches : Option OrderStatus → OrderStatus → Bool
status_matches none s = true
status_matches (some wanted) s = status_eq s wanted

abbrev bool_eq : Bool → Bool → Bool
bool_eq true b = b
bool_eq false true = false
bool_eq false false = true

local_matches : Option Bool → Bool → Bool
local_matches none b = true
local_matches (some wanted) b = bool_eq b wanted

unfoldable pub order_matches : OrderFilter → Order → Bool
unfolding status_matches local_matches
order_matches f o =
    status_matches f.status o.status
    && (text_matches f.offer_chain o.offer_chain
        && (text_matches f.request_chain o.request_chain
            && (text_matches f.peer_id o.peer_id && local_matches f.is_local o.is_local)))

of_page : Option (List Order) → Result OrderError (List Order)
of_page none = err query_failed
of_page (some rows) = ok rows

unfoldable pub list_orders : OrderFilter → List Order → Result OrderError (List Order)
unfolding of_page order_matches
list_orders f rows = of_page (
    page f.limit f.offset
      (order_with (descending (λ o. o.created_at)) (filter_where (order_matches f) rows)))

unfoldable pub get_open_orders : String → String → List Order → Result OrderError (List Order)
unfolding list_orders
get_open_orders offer request rows =
    list_orders
      (record any_order { status = some open_order; offer_chain = offer; request_chain = request })
      rows

unfoldable pub get_my_orders : List Order → Result OrderError (List Order)
unfolding list_orders
get_my_orders rows = list_orders (record any_order { is_local = some true }) rows

abbrev pub without_id : String → Order → Bool
without_id i o = if has_id i o then false else true

unfoldable pub delete_order : String → List Order → Result OrderError (List Order)
unfolding any_where filter_where
delete_order i rows =
    if any_where (has_id i) rows then ok (filter_where (without_id i) rows) else err order_not_found

abbrev past : Option ℕ → ℕ → Bool
past none now = false
past (some t) now = ltb t now

abbrev pub is_stale : ℕ → Order → Bool
is_stale now o = status_eq o.status open_order && past o.expires_at now

-- The rows, and how many expired.
unfoldable pub expire_old_orders : ℕ → List Order → List Order × ℕ
unfolding update_where filter_where
expire_old_orders now rows = (
  update_where (is_stale now) (λ o. record o { status = expired; updated_at = some now }) rows,
  length (filter_where (is_stale now) rows),
)

unfoldable pub count_orders : Option OrderStatus → List Order → ℕ
unfolding status_matches filter_where
count_orders s rows = length (filter_where (λ o. status_matches s o.status) rows)
