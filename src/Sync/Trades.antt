-- ===== src/Sync/Trades.antt =====
-- internal/sync/ordersync.go: `TradeSync`.
pub mod Merge
pub mod Settled
use klingdex.Prelude.{
  ℕ, ◌+◌, String, Bool, true, false, ◌||◌, Option, none, some, List, [], ◌∷◌, ltb, ◌==◌,
  if◌then◌else◌, length, str_eq, Result, ok, err,
}
use klingdex.Tables.{filter_where}
use klingdex.Storage.Trades.{
  Trade, TradeState, TradeError, init, accepted, funding, funded, redeemed, refunded, failed,
  aborted, get_trade, create_trade, update_trade_state, list_trades,
}
use klingdex.Sync.{sync_limit}

-- `stateOrder`; a state that the map lacks has order 0.
unfoldable pub state_order : TradeState → ℕ
state_order init = 1
state_order accepted = 2
state_order funding = 3
state_order funded = 4
state_order redeemed = 5
state_order refunded = 5
state_order failed = 5
state_order aborted = 5
state_order _ = 0

unfoldable pub should_update_trade_state : TradeState → TradeState → Bool
unfolding state_order
should_update_trade_state current incoming = ltb (state_order current) (state_order incoming)

abbrev pub takes_part : String → Trade → Bool
takes_part peer t = str_eq t.maker_peer_id peer || str_eq t.taker_peer_id peer

-- An error of the store is only logged.
abbrev pub stored : List Trade → Result TradeError (List Trade) → List Trade
stored old (ok rows) = rows
stored old (err e) = old

abbrev counted : Result TradeError (List Trade) → ℕ
counted (ok rows) = 1
counted (err e) = 0

-- One trade of an answer: the table, and how many new trades there are.
unfoldable pub sync_trade : String → ℕ → Trade → List Trade → List Trade × ℕ
unfolding should_update_trade_state
sync_trade me now t rows =
    if takes_part me t
    then (elim (get_trade t.id rows) [
      | none ↦ (stored rows (create_trade t rows), counted (create_trade t rows))
      | some old ↦ (
        if should_update_trade_state old.state t.state
            then stored rows (update_trade_state now t.id t.state rows)
            else rows,
        0,
      )
    ])
    else (rows, 0)

-- `SyncWithPeer`, from the answer on.
unfoldable pub sync_trades : String → ℕ → List Trade → List Trade → List Trade × ℕ
unfolding sync_trade
sync_trades me now [] rows = (rows, 0)
sync_trades me now (t ∷ ts) rows =
    let (rows', n) = sync_trade me now t rows in
    let (rows'', m) = sync_trades me now ts rows' in (rows'', n + m)

abbrev shared : String → ℕ → List Trade → List Trade × Bool
shared peer limit rows =
    let found = filter_where (takes_part peer) rows in (found, length found == limit)

-- `handleSyncStream`: the trades for a peer, and whether there may be more.
unfoldable pub answer_trades : String → ℕ → List Trade → Result TradeError (List Trade × Bool)
unfolding list_trades filter_where sync_limit
answer_trades peer limit rows =
    elim (list_trades
      (record {
        state = none;
        our_role = none;
        method = "";
        maker_peer_id = "";
        taker_peer_id = "";
        limit = sync_limit limit;
        offset = 0;
      })
      rows) [ err e ↦ err e | ok page ↦ ok (shared peer (sync_limit limit) page) ]
