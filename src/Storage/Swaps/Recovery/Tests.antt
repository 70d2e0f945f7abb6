-- ===== src/Storage/Swaps/Recovery/Tests.antt =====
-- A swap that is funded, and saved over its first copy.
use klingdex.Prelude.{◌≡◌, refl, List, [], ◌∷◌, arith, true, ok, if◌then◌else◌}
use klingdex.Tables.{filter_where, find_where, any_where}
use klingdex.Storage.Swaps.{
  SwapRecord, SwapState, init, funded, has_trade, save_swap, read_swap, is_terminal,
  get_pending_swaps,
}
use klingdex.Storage.Swaps.Recovery.{save_swap-Recovers, Saves}

abbrev saved : SwapState → SwapRecord
saved s = record {
  trade_id = "t";
  order_id = "";
  maker_peer_id = "";
  taker_peer_id = "";
  our_role = "initiator";
  is_maker = true;
  offer_chain = "BTC";
  offer_amount = 1;
  request_chain = "LTC";
  request_amount = 2;
  state = s;
  method_data = "{}";
  local_funding_tx_id = "";
  local_funding_vout = 0;
  remote_funding_tx_id = "";
  remote_funding_vout = 0;
  timeout_height = 100;
  request_timeout_height = 200;
  timeout_timestamp = 0;
  redeem_tx_id = "";
  refund_tx_id = "";
  failure_reason = "";
  created_at = 0;
  updated_at = 0;
  completed_at = 0;
}

save_swap-Recovers_example :
    (after : List SwapRecord) × (r : SwapRecord) × (save_swap 5 (saved funded) (saved init ∷ [])
      ≡ ok after)
    × (read_swap "t" after ≡ ok r)
    × Saves 5 (saved funded) (find_where (has_trade "t") (saved init ∷ [])) r
    × (filter_where (has_trade "t") (get_pending_swaps after)
        ≡ (if is_terminal funded then [] else r ∷ []))
save_swap-Recovers_example =
    save_swap-Recovers 5 (saved funded) (saved init ∷ []) (unfold any_where in refl, tt)
      (omega arith) (omega arith)
