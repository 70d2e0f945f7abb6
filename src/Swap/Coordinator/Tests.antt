-- ===== src/Swap/Coordinator/Tests.antt =====
-- A swap of bitcoin for litecoin on the test network, as its maker and its taker see it.
use klingdex.Prelude.{
  ℕ, String, Bool, true, false, ◌≡◌, ◌↔◌, refl, none, some, List, [], ◌∷◌, Result, ok, err,
  replicate, arith, lookup,
}
use klingdex.Chain.{testnet, Network}
use klingdex.Chain
use klingdex.Config.Coins.{get_coin}
use klingdex.Swap.Crypto.Constant.{constant_crypto}
use klingdex.Swap.Txscript.Plain.{plain_txscript}
use klingdex.Swap.Musig2Lib.Constant.{numbers}
use klingdex.Swap.Types.{
  random_id, initiator, init, funding, funded, redeemed, refunded, Method, musig2, htlc, Offer,
  Swap,
}
use klingdex.Swap.Offer.{new_swap}
use klingdex.Swap.Coordinator.{
  CoordError, htlc_error, secret_mismatch, swap_not_found, Backend, Backends, ActiveSwap,
  Coordinator, HtlcData, ChainMusig2, get_block_height, or_zero, get_swap, with_swap,
}
use klingdex.Swap.Coordinator.Start.{Fresh, chain_musig2, start_initiator, start_responder}
use klingdex.Swap.Coordinator.Keys.{set_remote_pub_key, get_swap_addresses}
use klingdex.Swap.Coordinator.Agreement.Htlc.{htlc_addresses_agree}
use klingdex.Swap.Coordinator.Agreement.Musig2.{taproot_addresses_agree}
use klingdex.Swap.Musig2.{Musig2Session}
use klingdex.Swap.HtlcSession.{HtlcSession, hash_exists}
use klingdex.Swap.State.{◌⟶◌}
use klingdex.Swap.Heights.{can_refund_by_block}
use klingdex.Swap.Spending.{TxLib}
use klingdex.Swap.Coordinator.NonceSafety
use klingdex.Swap.Coordinator.NonceSafety.{key, nonces, remote_nonce, sign}
use klingdex.Swap.Coordinator.Lifecycle
use klingdex.Swap.Coordinator.Lifecycle.{
  fund, count, complete, refund_at, run, Reach, run-Reach, refund_swap_iff,
}
use klingdex.Swap.Coordinator.Tracking.{refund_swap, complete_swap}
use klingdex.Swap.Coordinator.Secrets.{set_remote_secret_hash, set_revealed_secret}
use klingdex.Swap.Coordinator.HashMismatch.{hash_overwritten}
use klingdex.Swap.Coordinator.HtlcSpend.{claim_htlc}
use klingdex.Swap.Coordinator.ClaimState.{claim_htlc-AnyState}
use klingdex.Swap.Coordinator.Timeouts.{check_timeouts}
use klingdex.Swap.Coordinator.Timeouts.Monitor.{
  Watched, check_timeouts-Watched, check_timeouts-SkipsHtlc,
}

abbrev offer_by : Method → Offer
offer_by m = record {
  offer_chain = "BTC";
  offer_amount = 100000;
  request_chain = "LTC";
  request_amount = 5000000;
  method = m;
  expires_at = 0;
}

abbrev created : Swap
created = record {
  id = random_id (7 ∷ []);
  network = testnet;
  method = musig2;
  role = initiator;
  state = init;
  offer = offer_by htlc;
  created_at = 5;
  initiator_lock = 172800000000000;
  responder_lock = 86400000000000;
  offer_chain_start_height = 0;
  request_chain_start_height = 0;
  offer_chain_timeout_height = 0;
  request_chain_timeout_height = 0;
  local_pub_key = [];
  remote_pub_key = [];
  aggregated_pub_key = [];
  local_funding_tx_id = "";
  local_funding_vout = 0;
  local_funding_confirms = 0;
  remote_funding_tx_id = "";
  remote_funding_vout = 0;
  remote_funding_confirms = 0;
  local_offer_wallet_addr = "";
  local_request_wallet_addr = "";
  remote_offer_wallet_addr = "";
  remote_request_wallet_addr = "";
  secret = [];
  secret_hash = [];
}

abbrev no_swap : ActiveSwap numbers plain_txscript
no_swap = record { swap = created; musig2_data = none; htlc_data = none }

abbrev get_or :
    Result CoordError (ActiveSwap numbers plain_txscript) → ActiveSwap numbers plain_txscript
get_or (ok a) = a
get_or (err _) = no_swap

-- Both chains stand at height 100, and every transaction has ten confirmations.
abbrev chains : Backends
chains symbol = some (record {
  block_height = some 100;
  confirmations = λ tx. some 10;
  fees = some (3, 2);
  broadcast = λ raw. some "id";
})

abbrev fresh : Bool → Fresh numbers plain_txscript
fresh k = record {
  id = some (7 ∷ []);
  secret = some (replicate 32 9);
  key = some k;
  htlc_secret = some (replicate 32 5);
  now = 5;
}

abbrev maker : Method → Result CoordError (ActiveSwap numbers plain_txscript)
maker m = start_initiator numbers plain_txscript chains (fresh true) "trade" (offer_by m) m testnet

abbrev taker : Method → Result CoordError (ActiveSwap numbers plain_txscript)
taker m =
    start_responder numbers plain_txscript chains (fresh false) "trade" (offer_by m)
      (get_or (maker m)).swap.local_pub_key (get_or (maker m)).swap.secret_hash m testnet

htlc_addresses_agree_example :
    let r =
      set_remote_pub_key numbers plain_txscript
        (get_or (taker htlc)).swap.local_pub_key
        (get_or (maker htlc)) in
    (r.result ≡ ok tt)
    × (get_swap_addresses numbers plain_txscript r.active
        ≡ get_swap_addresses numbers plain_txscript (get_or (taker htlc)))
unfolding start_initiator new_swap Chain.get klingdex.Swap.Secrets.generate_swap_secret
    get_block_height klingdex.Swap.HtlcSession.new_htlc_session_with_key
    klingdex.Swap.HtlcSession.generate_secret klingdex.Swap.HtlcSession.set_secret_hash
    start_responder klingdex.Swap.Secrets.set_remote_pub_key
    klingdex.Swap.HtlcSession.set_remote_pub_key
    klingdex.Swap.HtlcSession.generate_swap_address_with_roles
    klingdex.Swap.HtlcScript.build_htlc_script klingdex.Swap.Timelocks.get_timeout_blocks
htlc_addresses_agree_example =
    htlc_addresses_agree numbers plain_txscript chains chains (fresh true) (fresh false) "trade"
      (offer_by htlc) testnet {a = get_or (maker htlc)} {b = get_or (taker htlc)} refl refl

taproot_addresses_agree_example :
    let r =
      set_remote_pub_key numbers plain_txscript
        (get_or (taker musig2)).swap.local_pub_key
        (get_or (maker musig2)) in
    (r.result ≡ ok tt)
    × (get_swap_addresses numbers plain_txscript r.active
        ≡ get_swap_addresses numbers plain_txscript (get_or (taker musig2)))
unfolding start_initiator new_swap Chain.get klingdex.Swap.Secrets.generate_swap_secret
    get_block_height klingdex.Swap.Musig2.new_musig2_session start_responder
    klingdex.Swap.Secrets.set_remote_pub_key klingdex.Swap.Musig2.set_remote_pub_key
    klingdex.Swap.Musig2.Address.taproot_address_with_refund
    klingdex.Swap.Musig2.Address.aggregated_pub_key klingdex.Swap.Taproot.build_taproot_script_tree
    klingdex.Swap.Taproot.build_refund_script klingdex.Swap.Taproot.taproot_address
    klingdex.Swap.Taproot.encode_taproot_address klingdex.Swap.Bech32.bech32_convert_bits
    klingdex.Swap.Bech32.bech32m_encode get_coin klingdex.Config.Timeouts.get_chain_timeout
    klingdex.Swap.Bech32.bech32_checksum klingdex.Swap.Bech32.bech32_hrp_expand
    klingdex.Swap.Bech32.bech32_polymod klingdex.Swap.Coordinator.Start.respond_musig2_chain
    klingdex.Swap.Coordinator.Start.of_outcome klingdex.Swap.Timelocks.get_timeout_blocks
    klingdex.Swap.Coordinator.Start.respond_method klingdex.Swap.Coordinator.Start.initiate_method
taproot_addresses_agree_example =
    taproot_addresses_agree numbers plain_txscript chains chains (fresh true) (fresh false) "trade"
      (offer_by musig2) testnet (get_or (maker musig2)).swap.secret_hash {a = get_or (maker musig2)}
      {b = get_or (taker musig2)} refl refl

abbrev new_one : Musig2Session numbers
new_one = record {
  symbol = "BTC";
  network = testnet;
  local_priv_key = true;
  local_pub_key = true;
  remote_pub_key = none;
  aggregated_key = none;
  local_nonces = none;
  remote_nonces = [];
  has_remote_nonce = false;
  used_nonces = [];
  nonce_used = false;
  invalidated = false;
  context = none;
  session = none;
  tweak_applied = false;
  script_tree = none;
}

-- A second signature with the same nonces is tried.
abbrev rounds : List (NonceSafety.Call numbers plain_txscript)
rounds =
    key false
    ∷ nonces (some 1)
    ∷ remote_nonce []
    ∷ sign []
    ∷ sign []
    ∷ nonces (some 2)
    ∷ sign []
    ∷ []

abbrev steps : List (Lifecycle.Call numbers plain_txscript)
steps = fund "aa" 0 true ∷ fund "bb" 1 false ∷ count chains ∷ complete ∷ refund_at chains ∷ []

run-Reach_example : Reach init (run numbers plain_txscript steps no_swap).swap.state
run-Reach_example = run-Reach numbers plain_txscript steps no_swap

abbrev in_funding : ActiveSwap numbers plain_txscript
in_funding = record no_swap {
  swap = record created {
    state = funding;
    local_funding_tx_id = "aa";
    remote_funding_tx_id = "bb";
  };
}

refund_swap_iff_example :
    let due =
      can_refund_by_block in_funding.swap
        (or_zero (get_block_height chains "BTC"))
        (or_zero (get_block_height chains "LTC")) in
    ((refund_swap numbers plain_txscript chains in_funding).result ≡ ok tt)
    ↔ ((due ≡ true) × (funding ⟶ refunded))
refund_swap_iff_example = refund_swap_iff numbers plain_txscript chains in_funding

-- The maker of a funded MuSig2 swap, with both keys and all nonces.
abbrev joined : String → ChainMusig2 numbers plain_txscript
joined symbol =
    chain_musig2 numbers plain_txscript
      (record new_one {
        symbol = symbol;
        remote_pub_key = some false;
        aggregated_key = some 0;
        local_nonces = some 1;
        has_remote_nonce = true;
      })
      "tb1p"

abbrev ready : ActiveSwap numbers plain_txscript
ready = record {
  swap = record created {
    state = funded;
    offer_chain_timeout_height = 172;
    request_chain_timeout_height = 244;
  };
  musig2_data =
      some (record {
        local_priv_key = true;
        offer_chain = joined "BTC";
        request_chain = joined "LTC";
      });
  htlc_data = none;
}

abbrev hash_of : ℕ → List ℕ
hash_of b = replicate 32 b

abbrev session_on : String → HtlcSession constant_crypto plain_txscript
session_on symbol = record {
  symbol = symbol;
  network = testnet;
  local_priv_key = some true;
  local_pub_key = true;
  remote_pub_key = some false;
  secret = replicate 32 5;
  secret_hash = replicate 32 32;
  htlc_data = none;
  is_initiator = true;
}

abbrev htlc_sessions : HtlcData numbers plain_txscript
htlc_sessions = record {
  local_priv_key = some true;
  offer_chain = record { session = session_on "BTC"; htlc_address = "a" };
  request_chain = record { session = session_on "LTC"; htlc_address = "b" };
}

abbrev with_hash : ActiveSwap numbers plain_txscript
with_hash = record in_funding { htlc_data = some htlc_sessions }

hash_overwritten_example :
    let r = set_remote_secret_hash numbers plain_txscript (replicate 32 1) with_hash in
    (r.result ≡ err (htlc_error hash_exists))
    × (r.active.swap.secret_hash ≡ replicate 32 1)
    × (r.active.htlc_data ≡ some htlc_sessions)
    × ((set_revealed_secret numbers plain_txscript (replicate 32 5) r.active).result
        ≡ err secret_mismatch)
hash_overwritten_example =
    hash_overwritten numbers plain_txscript with_hash htlc_sessions (replicate 32 1)
      (replicate 32 5) refl (omega arith) refl refl (λ e. cc)

abbrev tx_lib : TxLib constant_crypto
tx_lib = record {
  parse_tx_id = λ s. some (1 ∷ []);
  to_script = λ n a. some (2 ∷ []);
  ecdsa = λ k s u n tx. some (3 ∷ []);
  schnorr = λ k s u n tx. some (3 ∷ []);
  serialize_tx = λ tx. some (4 ∷ []);
}

-- A swap with a script on the chain of the claim, which is claimed.
abbrev with_script : HtlcSession constant_crypto plain_txscript
with_script = record (session_on "LTC") {
  htlc_data = some (record {
    script = 1 ∷ [];
    script_hash = [];
    address = "b";
    secret_hash = replicate 32 32;
    receiver_pub_key = [];
    sender_pub_key = [];
    timeout_blocks = 10;
  });
}

abbrev claimable : ActiveSwap numbers plain_txscript
claimable = record with_hash {
  swap = record with_hash.swap { remote_funding_tx_id = "aa" };
  htlc_data = some (record htlc_sessions {
    request_chain = record { session = with_script; htlc_address = "b" };
  });
}

claimable_claims :
    (claim_htlc numbers plain_txscript tx_lib chains
      (some (λ s i j. some "addr"))
      "LTC"
      claimable).result
    ≡ ok "id"
unfolding claim_htlc klingdex.Swap.HtlcSession.get_htlc_script
    klingdex.Swap.Spending.build_htlc_claim_tx Chain.get klingdex.Config.Fees.calculate_dao_fee
    klingdex.Config.DaoAddresses.get_dao_address get_coin
claimable_claims = refl

claim_htlc-AnyState_example :
    let r =
      claim_htlc numbers plain_txscript tx_lib chains
        (some (λ s i j. some "addr"))
        "LTC"
        claimable in
    let r' =
      claim_htlc numbers plain_txscript tx_lib chains
        (some (λ s i j. some "addr"))
        "LTC"
        (record claimable { swap = record claimable.swap { state = refunded } }) in
    (r'.result ≡ r.result) × ((id : String) → r.result ≡ ok id → r'.active.swap.state ≡ redeemed)
claim_htlc-AnyState_example =
    claim_htlc-AnyState numbers plain_txscript tx_lib refunded chains (some (λ s i j. some "addr"))
      "LTC" claimable

-- A funded MuSig2 swap at its timeout height, and an HTLC swap.
abbrev at_timeout : Coordinator numbers plain_txscript
at_timeout = record {
  network = testnet;
  swaps =
      (
        "musig2",
        record ready {
          swap = record ready.swap { offer_chain_timeout_height = 100; local_funding_tx_id = "aa" };
        },
      )
      ∷ ("htlc", with_hash)
      ∷ [];
  events = [];
}

check_timeouts-Watched_example :
    (a' : ActiveSwap numbers plain_txscript) × (lookup "musig2"
        (check_timeouts numbers plain_txscript tx_lib chains
          (some (λ s i j. some "addr"))
          at_timeout).0.swaps
      ≡ some a')
    × Watched numbers plain_txscript tx_lib chains
        (record ready {
          swap = record ready.swap { offer_chain_timeout_height = 100; local_funding_tx_id = "aa" };
        })
        a'
check_timeouts-Watched_example =
    check_timeouts-Watched numbers plain_txscript tx_lib chains (some (λ s i j. some "addr"))
      "musig2" at_timeout refl

check_timeouts-SkipsHtlc_example :
    lookup "htlc"
      (check_timeouts numbers plain_txscript tx_lib chains
        (some (λ s i j. some "addr"))
        at_timeout).0.swaps
    ≡ some with_hash
check_timeouts-SkipsHtlc_example =
    check_timeouts-SkipsHtlc numbers plain_txscript tx_lib chains (some (λ s i j. some "addr"))
      "htlc" at_timeout refl refl
