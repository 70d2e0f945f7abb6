-- ===== src/Swap/Coordinator/Refund.antt =====
-- internal/swap/coordinator_timeout.go: the refund of a MuSig2 swap. `derive` is the wallet, which
-- may be missing.
use klingdex.Prelude.{
  ℕ, ◌+◌, ◌*◌, ◌%◌, ◌^◌, String, not, ◌&&◌, Option, none, some, List, ◌∷◌, Result, ok, err, ◌>>=◌,
  if◌then◌else◌, str_eq,
}
use klingdex.Swap.Bech32.{codes}
use klingdex.Swap.HtlcScript.{of_option}
use klingdex.Swap.Crypto.{Crypto}
use klingdex.Swap.Txscript.{Txscript}
use klingdex.Swap.Taproot.{TaprootScriptTree, build_taproot_script_tree}
use klingdex.Swap.Timelocks.{get_timeout_blocks}
use klingdex.Swap.Musig2Lib.{Musig2Lib}
use klingdex.Swap.Musig2.{Musig2Session}
use klingdex.Swap.Musig2.Address.{aggregated_pub_key}
use klingdex.Swap.Types.{refunded, Swap, is_initiator}
use klingdex.Swap.Spending.{TxLib, build_refund_tx_from_tree}
use klingdex.Swap.Coordinator.{
  CoordError, no_musig2, bad_chain, no_funding, no_wallet, no_script, nil_pointer, musig2_error,
  Backends, ChainMusig2, Musig2Data, ActiveSwap, Reply, fail, proceed, when, wrap,
}
use klingdex.Swap.Coordinator.HtlcSpend.{Derive, send, spend_params, rate_or_default, hour}

-- The index that the first four bytes of a trade's id give; such an id is ASCII.
unfoldable pub refund_index : List ℕ → ℕ
refund_index (a ∷ b ∷ c ∷ d ∷ _) = (a * 2 ^ 24 + b * 2 ^ 16 + c * 2 ^ 8 + d) % 2 ^ 32 % 1000
refund_index _ = 0

-- The amount that this party has locked on a chain.
unfoldable pub own_leg : String → Swap → Option ℕ
own_leg symbol s =
    if is_initiator s.role && str_eq symbol s.offer.offer_chain
    then some s.offer.offer_amount
    else (if not (is_initiator s.role) && str_eq symbol s.offer.request_chain
        then some s.offer.request_amount
        else none)

unfoldable pub stored_address : String → Swap → String
stored_address symbol s =
    if str_eq symbol s.offer.offer_chain && not (str_eq s.local_offer_wallet_addr "")
    then s.local_offer_wallet_addr
    else (if str_eq symbol s.offer.request_chain && not (str_eq s.local_request_wallet_addr "")
        then s.local_request_wallet_addr
        else "")

module _ {c : Crypto} (l : Musig2Lib c) (t : Txscript) (x : TxLib c) where
  open c use {pub_key}

  -- The data of a chain of the offer.
  unfoldable pub chain_of :
      String → ActiveSwap l t → Musig2Data l t → Result CoordError (ChainMusig2 l t)
  chain_of symbol a d =
      if str_eq symbol a.swap.offer.offer_chain
      then ok d.offer_chain
      else (if str_eq symbol a.swap.offer.request_chain then ok d.request_chain else err no_musig2)

  unfoldable pub find_tree :
      String
      → ActiveSwap l t
      → Musig2Data l t
      → Musig2Session l
      → Result CoordError (TaprootScriptTree c)
  find_tree symbol a d s = elim s.script_tree [
    | some tree ↦ ok tree
    | none ↦ do
      key ← wrap musig2_error (aggregated_pub_key l s)
      wrap (λ _. no_script)
          (build_taproot_script_tree c t key (pub_key d.local_priv_key)
            (get_timeout_blocks symbol (is_initiator a.swap.role)))
  ]

  abbrev cached : TaprootScriptTree c → ChainMusig2 l t → ChainMusig2 l t
  cached tree m = record m { session = record m.session { script_tree = some tree } }

  -- `SetScriptTree`: a tree that was rebuilt stays in the session, whatever follows.
  unfoldable pub cache_tree :
      String → TaprootScriptTree c → ActiveSwap l t → Musig2Data l t → ActiveSwap l t
  cache_tree symbol tree a d =
      if str_eq symbol a.swap.offer.offer_chain
      then record a { musig2_data = some (record d { offer_chain = cached tree d.offer_chain }) }
      else record a {
        musig2_data = some (record d { request_chain = cached tree d.request_chain });
      }

  unfoldable pub refund_address : Derive l t x → String → String → Swap → Result CoordError String
  unfolding stored_address refund_index
  refund_address none trade symbol s = err no_wallet
  refund_address (some derive) trade symbol s =
      if str_eq (stored_address symbol s) ""
      then of_option no_wallet (derive symbol 0 (refund_index (codes trade)))
      else ok (stored_address symbol s)

  unfoldable pub refund_leg :
      Backends
      → Derive l t x
      → String
      → String
      → ActiveSwap l t
      → Musig2Data l t
      → TaprootScriptTree c
      → Reply l t String
  unfolding own_leg refund_address
  refund_leg bs derive trade symbol a d tree =
      proceed l t a (of_option bad_chain (own_leg symbol a.swap)) (λ amount.
        when l t (not (str_eq a.swap.local_funding_tx_id "")) a no_funding (
          proceed l t a (refund_address derive trade symbol a.swap) (λ dest.
            proceed l t a (of_option nil_pointer (bs symbol)) (λ b.
              send l t x "refunded" refunded a b (
                build_refund_tx_from_tree x
                  (spend_params l t x a symbol a.swap.local_funding_tx_id a.swap.local_funding_vout
                    amount dest (rate_or_default (hour b.fees)) (some d.local_priv_key))
                  tree)))))

  unfoldable pub refund_data :
      Backends
      → Derive l t x
      → String
      → String
      → ActiveSwap l t
      → Option (Musig2Data l t)
      → Reply l t String
  unfolding chain_of find_tree cache_tree refund_leg
  refund_data bs derive trade symbol a none = fail l t a no_musig2
  refund_data bs derive trade symbol a (some d) = proceed l t a (chain_of symbol a d) (λ m.
      proceed l t a (find_tree symbol a d m.session)
        (λ tree. refund_leg bs derive trade symbol (cache_tree symbol tree a d) d tree))

  -- `buildAndBroadcastRefundUnlocked`
  unfoldable pub build_and_broadcast_refund :
      Backends → Derive l t x → String → String → ActiveSwap l t → Reply l t String
  unfolding refund_data
  build_and_broadcast_refund bs derive trade symbol a =
      refund_data bs derive trade symbol a a.musig2_data
