-- ===== src/Swap/State/Tests.antt =====
-- A swap in each of the states that matter.
use klingdex.Prelude.{◌≡◌, ◌↔◌, none, some, []}
use klingdex.Swap.Types.{random_id, State, init, funding, invalid_state, Swap}
use klingdex.Chain.{testnet}
use klingdex.Swap.Types.{Offer, musig2, initiator}
use klingdex.Swap.State.{transition_to, transition_to_iff, ◌⟶◌}

abbrev offer : Offer
offer = record {
  offer_chain = "BTC";
  offer_amount = 100000;
  request_chain = "LTC";
  request_amount = 5000000;
  method = musig2;
  expires_at = 0;
}

abbrev swap_in : State → Swap
swap_in a = record {
  id = random_id ([]);
  network = testnet;
  method = musig2;
  role = initiator;
  state = a;
  offer = offer;
  created_at = 0;
  initiator_lock = 0;
  responder_lock = 0;
  offer_chain_start_height = 0;
  request_chain_start_height = 0;
  offer_chain_timeout_height = 0;
  request_chain_timeout_height = 0;
  local_pub_key = [];
  remote_pub_key = [];
  aggregated_pub_key = [];
  local_funding_tx_id = "";
  local_funding_vout = 0;
  local_funding_confirms = 0;
  remote_funding_tx_id = "";
  remote_funding_vout = 0;
  remote_funding_confirms = 0;
  local_offer_wallet_addr = "";
  local_request_wallet_addr = "";
  remote_offer_wallet_addr = "";
  remote_request_wallet_addr = "";
  secret = [];
  secret_hash = [];
}

abbrev new_one : Swap
new_one = swap_in init

transition_to_iff_example :
    (((transition_to new_one funding).1 ≡ none) ↔ (new_one.state ⟶ funding))
    × ((new_one.state ⟶ funding)
        → (transition_to new_one funding).0 ≡ record new_one { state = funding })
    × ((transition_to new_one funding).1 ≡ some invalid_state
        → (transition_to new_one funding).0 ≡ new_one)
transition_to_iff_example = transition_to_iff new_one funding
