-- ===== src/Swap/Confirmations/Tests.antt =====
-- A funded swap with confirmations, and one between chains without a row.
use klingdex.Prelude.{◌≤◌, true, ◌≡◌, ◌≢◌, ◌↔◌, none}
use klingdex.Swap.Types.{random_id, Swap}
use klingdex.Prelude.{[]}
use klingdex.Chain.{testnet}
use klingdex.Swap.Types.{State, Offer, musig2, initiator, funded}
use klingdex.Swap.Confirmations.{
  check_confirmations, check_confirmations_iff, is_funding_confirmed, required_on, local_chain,
  remote_chain,
}

abbrev offer : Offer
offer = record {
  offer_chain = "BTC";
  offer_amount = 100000;
  request_chain = "LTC";
  request_amount = 5000000;
  method = musig2;
  expires_at = 0;
}

abbrev swap_in : State → Swap
swap_in a = record {
  id = random_id ([]);
  network = testnet;
  method = musig2;
  role = initiator;
  state = a;
  offer = offer;
  created_at = 0;
  initiator_lock = 0;
  responder_lock = 0;
  offer_chain_start_height = 0;
  request_chain_start_height = 0;
  offer_chain_timeout_height = 0;
  request_chain_timeout_height = 0;
  local_pub_key = [];
  remote_pub_key = [];
  aggregated_pub_key = [];
  local_funding_tx_id = "";
  local_funding_vout = 0;
  local_funding_confirms = 0;
  remote_funding_tx_id = "";
  remote_funding_vout = 0;
  remote_funding_confirms = 0;
  local_offer_wallet_addr = "";
  local_request_wallet_addr = "";
  remote_offer_wallet_addr = "";
  remote_request_wallet_addr = "";
  secret = [];
  secret_hash = [];
}

abbrev confirmed : Swap
confirmed = record (swap_in funded) {
  local_funding_tx_id = "aa";
  remote_funding_tx_id = "bb";
  local_funding_confirms = 1;
  remote_funding_confirms = 2;
}

check_confirmations_iff_example :
    ((check_confirmations confirmed ≡ none) ↔ (is_funding_confirmed confirmed ≡ true))
    × ((check_confirmations confirmed ≡ none) ↔ (
        (confirmed.local_funding_tx_id ≢ "")
        × (confirmed.remote_funding_tx_id ≢ "")
        × (required_on confirmed (local_chain confirmed) ≤ confirmed.local_funding_confirms)
        × (required_on confirmed (remote_chain confirmed) ≤ confirmed.remote_funding_confirms)))
check_confirmations_iff_example = check_confirmations_iff confirmed
