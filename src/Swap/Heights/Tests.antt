-- ===== src/Swap/Heights/Tests.antt =====
-- A swap of bitcoin for litecoin at given heights.
use klingdex.Prelude.{ℕ, ◌<◌, false, ◌≡◌, if◌then◌else◌}
use klingdex.Config.Timeouts.{get_chain_timeout, is_safe_to_complete}
use klingdex.Swap.Types.{random_id, initiator, responder, Swap, is_initiator}
use klingdex.Prelude.{[], refl}
use klingdex.Chain.{testnet}
use klingdex.Swap.Types.{State, Offer, musig2, funded}
use klingdex.Swap.Heights.{
  swap_is_safe_to_complete, safe_excludes_refund, can_refund_by_block, blocks_until_refund,
}

abbrev offer : Offer
offer = record {
  offer_chain = "BTC";
  offer_amount = 100000;
  request_chain = "LTC";
  request_amount = 5000000;
  method = musig2;
  expires_at = 0;
}

abbrev swap_in : State → Swap
swap_in a = record {
  id = random_id ([]);
  network = testnet;
  method = musig2;
  role = initiator;
  state = a;
  offer = offer;
  created_at = 0;
  initiator_lock = 0;
  responder_lock = 0;
  offer_chain_start_height = 0;
  request_chain_start_height = 0;
  offer_chain_timeout_height = 0;
  request_chain_timeout_height = 0;
  local_pub_key = [];
  remote_pub_key = [];
  aggregated_pub_key = [];
  local_funding_tx_id = "";
  local_funding_vout = 0;
  local_funding_confirms = 0;
  remote_funding_tx_id = "";
  remote_funding_vout = 0;
  remote_funding_confirms = 0;
  local_offer_wallet_addr = "";
  local_request_wallet_addr = "";
  remote_offer_wallet_addr = "";
  remote_request_wallet_addr = "";
  secret = [];
  secret_hash = [];
}

abbrev waiting : Swap
waiting = record (swap_in funded) {
  offer_chain_timeout_height = 1072;
  request_chain_timeout_height = 2144;
}

safe_excludes_refund_example :
    let own : ℕ = if is_initiator responder then 1000 else 2000 in
    (can_refund_by_block (record waiting { role = responder }) 1000 2000 ≡ false)
    × (0 < blocks_until_refund (record waiting { role = responder }) own)
unfolding swap_is_safe_to_complete is_safe_to_complete get_chain_timeout
safe_excludes_refund_example = safe_excludes_refund waiting responder 1000 2000 refl
