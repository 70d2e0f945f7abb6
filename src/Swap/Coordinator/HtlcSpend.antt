-- ===== src/Swap/Coordinator/HtlcSpend.antt =====
-- internal/swap/coordinator_htlc.go: claiming and refunding the escrow of an HTLC swap. `derive` is
-- the wallet, which may be missing. A swap has the network of its coordinator.
use klingdex.Prelude.{
  ℕ, String, Bool, not, ◌&&◌, Option, none, some, List, ◌==◌, length, Result, ok, err,
  if◌then◌else◌, str_eq,
}
use klingdex.Config.DaoAddresses.{get_dao_address}
use klingdex.Config.Fees.{calculate_dao_fee}
use klingdex.Swap.HtlcScript.{of_option}
use klingdex.Swap.Crypto.{Crypto}
use klingdex.Swap.Txscript.{Txscript}
use klingdex.Swap.Timelocks.{get_timeout_blocks}
use klingdex.Swap.Musig2Lib.{Musig2Lib}
use klingdex.Swap.HtlcSession.{get_htlc_script}
use klingdex.Swap.Types.{State, redeemed, refunded, is_initiator, is_testnet}
use klingdex.Swap.Spending.{
  SpendTx, SpendParams, TxLib, SpendError, build_htlc_claim_tx, build_htlc_refund_tx,
}
use klingdex.Swap.Coordinator.{
  CoordError, not_htlc, no_htlc, bad_chain, no_funding, no_secret, no_script, no_wallet,
  no_local_key, build_failed, backend_failed, nil_pointer, is_htlc_method, Backend, Backends,
  ChainHtlc, HtlcData, ActiveSwap, Reply, fail, announce, proceed, when,
}

-- The fee of an answer of the backend, or 20.
abbrev pub rate_or_default : Option ℕ → ℕ
rate_or_default none = 20
rate_or_default (some n) = if n == 0 then 20 else n

unfoldable pub half_hour : Option (ℕ × ℕ) → Option ℕ
half_hour none = none
half_hour (some f) = some f.0

unfoldable pub hour : Option (ℕ × ℕ) → Option ℕ
hour none = none
hour (some f) = some f.1

-- `fmt.Errorf` over the error of a builder.
unfoldable pub of_build : {A : Type 0} → Result SpendError A → Result CoordError A
of_build (ok a) = ok a
of_build (err _) = err build_failed

-- The timelock that a refund uses: the maker's for the initiator, and for the responder, whose
-- role negated is the maker's, the maker's as well.
unfoldable pub refund_timeout : String → Bool → ℕ
refund_timeout symbol is_maker =
    if is_maker
    then get_timeout_blocks symbol is_maker
    else get_timeout_blocks symbol (not is_maker)

module _ {c : Crypto} (l : Musig2Lib c) (t : Txscript) (x : TxLib c) where
  open c use {PrivKey}
  open x use {serialize_tx}

  abbrev pub Derive : Type 0
  Derive = Option (String → ℕ → ℕ → Option String)

  unfoldable pub address_from : Derive → String → Result CoordError String
  address_from none symbol = err no_wallet
  address_from (some d) symbol = of_option no_wallet (d symbol 0 0)

  unfoldable pub on_data :
      {A : Type 0}
      → ActiveSwap l t
      → Option (HtlcData l t)
      → (HtlcData l t → Reply l t A)
      → Reply l t A
  on_data a none next = fail l t a no_htlc
  on_data a (some d) next = next d

  -- The data of an HTLC swap.
  unfoldable pub with_htlc :
      {A : Type 0} → ActiveSwap l t → (HtlcData l t → Reply l t A) → Reply l t A
  unfolding on_data
  with_htlc a next =
      when l t (is_htlc_method a.swap.offer.method) a not_htlc (on_data a a.htlc_data next)

  -- The first of the session's secret, the offer chain session's and the swap's that has 32 bytes.
  unfoldable pub find_secret : ActiveSwap l t → HtlcData l t → ChainHtlc l t → List ℕ
  find_secret a d s =
      if length s.session.secret == 32
      then s.session.secret
      else (if length d.offer_chain.session.secret == 32
          then d.offer_chain.session.secret
          else a.swap.secret)

  -- A transaction that was broadcast sets the state and emits the event.
  unfoldable pub send :
      String → State → ActiveSwap l t → Backend → Result SpendError SpendTx → Reply l t String
  unfolding of_build
  send event u a b built = proceed l t a (of_build built) (λ tx.
      proceed l t a (of_option build_failed (serialize_tx tx)) (λ raw.
        proceed l t a (of_option backend_failed (b.broadcast raw))
          (λ id. announce l t event (record a { swap = record a.swap { state = u } }) id)))

  unfoldable pub spend_params :
      ActiveSwap l t → String → String → ℕ → ℕ → String → ℕ → Option PrivKey → SpendParams c
  spend_params a symbol tx vout amount dest rate key = record {
    symbol = symbol;
    network = a.swap.network;
    funding_tx_id = tx;
    funding_vout = vout;
    funding_amount = amount;
    dest_address = dest;
    fee_rate = rate;
    priv_key = key;
  }

  unfoldable pub claim_chain :
      Backends
      → Derive
      → String
      → ActiveSwap l t
      → HtlcData l t
      → ChainHtlc l t
      → ℕ
      → Reply l t String
  unfolding find_secret send spend_params address_from half_hour
  claim_chain bs derive symbol a d s amount =
      let secret = find_secret a d s in
      let script = get_htlc_script c t s.session in
      when l t (not (str_eq a.swap.remote_funding_tx_id "")) a no_funding (
        when l t (length secret == 32) a no_secret (
          when l t (not (length script == 0)) a no_script (
            proceed l t a (address_from derive symbol) (λ dest.
              proceed l t a (of_option nil_pointer (bs symbol)) (λ b.
                proceed l t a (of_option no_local_key s.session.local_priv_key) (λ key.
                  send "htlc_claimed" redeemed a b (
                    build_htlc_claim_tx x t
                      (spend_params a symbol a.swap.remote_funding_tx_id a.swap.remote_funding_vout
                        amount dest (rate_or_default (half_hour b.fees)) (some key))
                      script secret (get_dao_address (is_testnet a.swap.network) symbol)
                      (calculate_dao_fee amount (is_initiator a.swap.role)))))))))

  -- Go would stop at a chain without a backend.
  unfoldable pub claim_htlc : Backends → Derive → String → ActiveSwap l t → Reply l t String
  unfolding with_htlc claim_chain
  claim_htlc bs derive symbol a = with_htlc a (λ d.
      if str_eq symbol a.swap.offer.request_chain
      then claim_chain bs derive symbol a d d.request_chain a.swap.offer.request_amount
      else (if str_eq symbol a.swap.offer.offer_chain
          then claim_chain bs derive symbol a d d.offer_chain a.swap.offer.offer_amount
          else fail l t a bad_chain))

  unfoldable pub refund_chain :
      Backends → Derive → String → ActiveSwap l t → ChainHtlc l t → ℕ → ℕ → Reply l t String
  unfolding send spend_params address_from hour
  refund_chain bs derive symbol a s amount timeout =
      let script = get_htlc_script c t s.session in
      when l t (not (str_eq a.swap.local_funding_tx_id "")) a no_funding (
        when l t (not (length script == 0)) a no_script (
          proceed l t a (address_from derive symbol) (λ dest.
            proceed l t a (of_option nil_pointer (bs symbol)) (λ b.
              proceed l t a (of_option no_local_key s.session.local_priv_key) (λ key.
                send "htlc_refunded" refunded a b (
                  build_htlc_refund_tx x t
                    (spend_params a symbol a.swap.local_funding_tx_id a.swap.local_funding_vout
                      amount dest (rate_or_default (hour b.fees)) (some key))
                    script timeout))))))

  unfoldable pub refund_htlc : Backends → Derive → String → ActiveSwap l t → Reply l t String
  unfolding with_htlc refund_chain refund_timeout
  refund_htlc bs derive symbol a = with_htlc a (λ d.
      let maker = is_initiator a.swap.role in
      if maker && str_eq symbol a.swap.offer.offer_chain
      then refund_chain bs derive symbol a d.offer_chain a.swap.offer.offer_amount
          (refund_timeout symbol maker)
      else (if not maker && str_eq symbol a.swap.offer.request_chain
          then refund_chain bs derive symbol a d.request_chain a.swap.offer.request_amount
              (refund_timeout symbol maker)
          else fail l t a bad_chain))
