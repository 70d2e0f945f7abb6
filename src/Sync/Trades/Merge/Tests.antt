-- ===== src/Sync/Trades/Merge/Tests.antt =====
-- A trade that the other node has seen funded.
use klingdex.Prelude.{◌≡◌, ◌⊎◌, refl, some, none, [], ◌∷◌, false}
use klingdex.Storage.Trades.{Trade, TradeState, init, funded, is_terminal, get_trade}
use klingdex.Sync.Trades.{sync_trades}
use klingdex.Sync.Trades.Merge.{Follows, sync_trades-Follows}

abbrev trade : TradeState → Trade
trade s = record {
  id = "t";
  order_id = "o";
  maker_peer_id = "us";
  taker_peer_id = "them";
  maker_pub_key = "02";
  taker_pub_key = "03";
  our_role = "taker";
  method = "htlc";
  state = s;
  offer_chain = "BTC";
  offer_amount = 1;
  request_chain = "LTC";
  request_amount = 2;
  created_at = 1;
  updated_at = none;
  completed_at = none;
  failure_reason = "";
}

sync_trades-Follows_example :
    (m' : Trade) × (get_trade "t" (sync_trades "us" 5 (trade funded ∷ []) (trade init ∷ [])).0
      ≡ some m')
    × Follows (trade init) m'
    × ((is_terminal (trade init).state ≡ false) ⊎ (m' ≡ trade init))
unfolding get_trade
sync_trades-Follows_example =
    sync_trades-Follows "us" 5 (trade funded ∷ []) "t" (trade init ∷ []) {m = trade init} refl
