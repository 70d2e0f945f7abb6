-- ===== src/Sync/Orders.antt =====
-- internal/sync/ordersync.go: `OrderSync`.
pub mod Merge
use klingdex.Prelude.{
  ℕ, ◌+◌, String, Bool, true, false, ◌||◌, Option, none, some, List, [], ◌∷◌, ltb, ◌==◌,
  if◌then◌else◌, length, Result, ok, err,
}
use klingdex.Tables.{filter_where}
use klingdex.Storage.Orders.{
  Order, OrderError, open_order, get_order, create_order, save_order, list_orders,
}
use klingdex.Sync.{sync_limit}

abbrev pub stored : List Order → Result OrderError (List Order) → List Order
stored old (ok rows) = rows
stored old (err e) = old

abbrev counted : Result OrderError (List Order) → ℕ
counted (ok rows) = 1
counted (err e) = 0

-- One order of an answer: the table, and how many new orders there are. `valid` is the validator.
unfoldable pub sync_order : (Order → Bool) → Order → List Order → List Order × ℕ
sync_order valid o rows =
    if valid o
    then (elim (get_order o.id rows) [
      | none ↦
          let fresh = record o { is_local = false } in
          (stored rows (create_order fresh rows), counted (create_order fresh rows))
      | some old ↦ (
        if ltb old.created_at o.created_at
            then stored rows (save_order (record o { is_local = old.is_local }) rows)
            else rows,
        0,
      )
    ])
    else (rows, 0)

-- `SyncWithPeer`, from the answer on.
unfoldable pub sync_orders : (Order → Bool) → List Order → List Order → List Order × ℕ
unfolding sync_order
sync_orders valid [] rows = (rows, 0)
sync_orders valid (o ∷ os) rows =
    let (rows', n) = sync_order valid o rows in
    let (rows'', m) = sync_orders valid os rows' in (rows'', n + m)

-- The node passes no validator.
abbrev pub no_validator : Order → Bool
no_validator o = true

abbrev shared : ℕ → ℕ → List Order → List Order × Bool
shared since limit rows =
    let found = filter_where (λ o. since == 0 || ltb since o.created_at) rows in
    (found, length found == limit)

-- `handleSyncStream`: the open orders, and whether there may be more.
unfoldable pub answer_orders : ℕ → ℕ → List Order → Result OrderError (List Order × Bool)
unfolding list_orders filter_where sync_limit
answer_orders since limit rows =
    elim (list_orders
      (record {
        status = some open_order;
        offer_chain = "";
        request_chain = "";
        peer_id = "";
        is_local = none;
        limit = sync_limit limit;
        offset = 0;
      })
      rows) [ err e ↦ err e | ok page ↦ ok (shared since (sync_limit limit) page) ]
