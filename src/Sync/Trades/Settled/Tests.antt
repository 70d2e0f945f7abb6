-- ===== src/Sync/Trades/Settled/Tests.antt =====
-- A trade that the other node has seen funded.
use klingdex.Prelude.{arith, ◌≡◌, none, [], ◌∷◌}
use klingdex.Storage.Trades.{Trade, TradeState, funded}
use klingdex.Sync.Trades.{sync_trades}
use klingdex.Sync.Trades.Settled.{sync_trades-idempotent}

abbrev trade : TradeState → Trade
trade s = record {
  id = "t";
  order_id = "o";
  maker_peer_id = "us";
  taker_peer_id = "them";
  maker_pub_key = "02";
  taker_pub_key = "03";
  our_role = "taker";
  method = "htlc";
  state = s;
  offer_chain = "BTC";
  offer_amount = 1;
  request_chain = "LTC";
  request_amount = 2;
  created_at = 1;
  updated_at = none;
  completed_at = none;
  failure_reason = "";
}

sync_trades-idempotent_example :
    sync_trades "us" 9 (trade funded ∷ []) (sync_trades "us" 5 (trade funded ∷ []) []).0
    ≡ ((sync_trades "us" 5 (trade funded ∷ []) []).0, 0)
sync_trades-idempotent_example =
    sync_trades-idempotent "us" 5 9 (trade funded ∷ []) [] ((omega arith, omega arith), tt)
