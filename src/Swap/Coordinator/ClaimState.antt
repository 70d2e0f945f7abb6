-- ===== src/Swap/Coordinator/ClaimState.antt =====
-- What a claim of an HTLC asks of the state of its swap.
use klingdex.Prelude.{
  ℕ, String, Bool, true, false, not, ◌≡◌, refl, Option, none, some, Result, ok, err, if◌then◌else◌,
  str_eq, length, ◌==◌,
}
use klingdex.Config.DaoAddresses.{get_dao_address}
use klingdex.Config.Fees.{calculate_dao_fee}
use klingdex.Swap.HtlcScript.{of_option}
use klingdex.Swap.Crypto.{Crypto}
use klingdex.Swap.Txscript.{Txscript}
use klingdex.Swap.Musig2Lib.{Musig2Lib}
use klingdex.Swap.HtlcSession.{get_htlc_script}
use klingdex.Swap.Types.{State, redeemed, is_initiator, is_testnet}
use klingdex.Swap.Spending.{SpendTx, TxLib, SpendError, build_htlc_claim_tx}
use klingdex.Swap.Coordinator.{
  CoordError, not_htlc, no_htlc, bad_chain, no_funding, no_secret, no_script, no_local_key,
  build_failed, backend_failed, nil_pointer, is_htlc_method, Backend, Backends, ChainHtlc, HtlcData,
  ActiveSwap, Reply, fail, proceed, when,
}
use klingdex.Swap.Coordinator.HtlcSpend.{
  claim_htlc, claim_chain, on_data, with_htlc, send, find_secret, spend_params, address_from,
  half_hour, of_build, rate_or_default, Derive,
}

module _ {c : Crypto} (l : Musig2Lib c) (t : Txscript) (x : TxLib c) where
  -- The same result, and a redeemed swap wherever it is no error.
  record Same {A : Type 0} (r r' : Reply l t A) : Type 0 where
    same_result : r'.result ≡ r.result
    is_redeemed : (v : A) → r.result ≡ ok v → r'.active.swap.state ≡ redeemed

  fail-Same :
      {A : Type 0} (a b : ActiveSwap l t) (e : CoordError)
      → Same (fail l t {A = A} a e) (fail l t {A = A} b e)
  fail-Same a b e = record { same_result = refl; is_redeemed = λ v h. absurd cc }

  proceed-Same :
      {A B : Type 0} (a b : ActiveSwap l t) (r : Result CoordError A) (f g : A → Reply l t B)
      → ((v : A) → Same (f v) (g v))
      → Same (proceed l t a r f) (proceed l t b r g)
  proceed-Same a b (ok v) f g h = h v
  proceed-Same a b (err e) f g h = fail-Same a b e

  when-Same :
      {B : Type 0} (test : Bool) (a b : ActiveSwap l t) (e : CoordError) (r r' : Reply l t B)
      → Same r r'
      → Same (when l t test a e r) (when l t test b e r')
  when-Same true a b e r r' h = h
  when-Same false a b e r r' h = fail-Same a b e

  if-Same :
      {B : Type 0} (test : Bool) (r r' s s' : Reply l t B)
      → Same r r'
      → Same s s'
      → Same (if test then r else s) (if test then r' else s')
  if-Same true r r' s s' h k = h
  if-Same false r r' s s' h k = k

  -- A swap in another state.
  abbrev in_state : State → ActiveSwap l t → ActiveSwap l t
  in_state u a = record a { swap = record a.swap { state = u } }

  send-Same :
      (u : State) (a : ActiveSwap l t) (b : Backend) (built : Result SpendError SpendTx)
      → Same
          (send l t x "htlc_claimed" redeemed a b built)
          (send l t x "htlc_claimed" redeemed (in_state u a) b built)
  unfolding send
  send-Same u a b built = proceed-Same a (in_state u a) (of_build built) _ _ (λ tx.
      proceed-Same a (in_state u a) (of_option build_failed (x.serialize_tx tx)) _ _ (λ raw.
        proceed-Same a (in_state u a) (of_option backend_failed (b.broadcast raw)) _ _
          (λ id. record { same_result = refl; is_redeemed = λ v h. refl })))

  chain-Same :
      (u : State) (bs : Backends) (derive : Derive l t x) (symbol : String) (a : ActiveSwap l t)
      (d : HtlcData l t) (s : ChainHtlc l t) (amount : ℕ)
      → Same
          (claim_chain l t x bs derive symbol a d s amount)
          (claim_chain l t x bs derive symbol (in_state u a) d s amount)
  unfolding claim_chain find_secret spend_params
  chain-Same u bs derive symbol a d s amount =
      let b = in_state u a in
      when-Same (not (str_eq a.swap.remote_funding_tx_id "")) a b no_funding _ _ (
        when-Same (length (find_secret l t x a d s) == 32) a b no_secret _ _ (
          when-Same (not (length (get_htlc_script c t s.session) == 0)) a b no_script _ _ (
            proceed-Same a b (address_from l t x derive symbol) _ _ (λ dest.
              proceed-Same a b (of_option nil_pointer (bs symbol)) _ _ (λ e.
                proceed-Same a b (of_option no_local_key s.session.local_priv_key) _ _ (λ key.
                  send-Same u a e (
                    build_htlc_claim_tx x t
                      (spend_params l t x a symbol a.swap.remote_funding_tx_id
                        a.swap.remote_funding_vout amount dest (rate_or_default (half_hour e.fees))
                        (some key))
                      (get_htlc_script c t s.session) (find_secret l t x a d s)
                      (get_dao_address (is_testnet a.swap.network) symbol)
                      (calculate_dao_fee amount (is_initiator a.swap.role)))))))))

  data_of-Same :
      (u : State) (a : ActiveSwap l t) (o : Option (HtlcData l t))
      (f g : HtlcData l t → Reply l t String)
      → ((d : HtlcData l t) → Same (f d) (g d))
      → Same (on_data l t x a o f) (on_data l t x (in_state u a) o g)
  unfolding on_data
  data_of-Same u a none f g h = fail-Same a (in_state u a) no_htlc
  data_of-Same u a (some d) f g h = h d

  -- A claim does not depend on the state of its swap: in any other state it gives the same result,
  -- so it needs no confirmed funding, and wherever it succeeds the swap becomes redeemed, also one
  -- that was refunded, failed or cancelled.
  pub claim_htlc-AnyState :
      (u : State) (bs : Backends) (derive : Derive l t x) (symbol : String) (a : ActiveSwap l t)
      → let r = claim_htlc l t x bs derive symbol a in
        let r' = claim_htlc l t x bs derive symbol (in_state u a) in
        (r'.result ≡ r.result)
        × ((id : String) → r.result ≡ ok id → r'.active.swap.state ≡ redeemed)
  unfolding claim_htlc with_htlc
  claim_htlc-AnyState u bs derive symbol a =
      let b = in_state u a in
      let same = when-Same (is_htlc_method a.swap.offer.method) a b not_htlc _ _ (
        data_of-Same u a a.htlc_data _ _ (λ d.
          if-Same (str_eq symbol a.swap.offer.request_chain) _ _ _ _
            (chain-Same u bs derive symbol a d d.request_chain a.swap.offer.request_amount)
            (if-Same (str_eq symbol a.swap.offer.offer_chain) _ _ _ _
              (chain-Same u bs derive symbol a d d.offer_chain a.swap.offer.offer_amount)
              (fail-Same a b bad_chain)))) in
      (same.same_result, same.is_redeemed)
