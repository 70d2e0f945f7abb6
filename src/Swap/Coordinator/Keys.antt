-- ===== src/Swap/Coordinator/Keys.antt =====
-- internal/swap/coordinator_keys.go: the other party's key, and the escrow addresses that both
-- keys give. A nil pointer, where Go would stop, is the error `nil_pointer`.
use klingdex.Prelude.{
  ℕ, String, Bool, true, false, Option, none, some, List, Result, ok, err, if◌then◌else◌, str_eq,
}
use klingdex.Swap.HtlcScript.{of_option}
use klingdex.Swap.Crypto.{Crypto}
use klingdex.Swap.Txscript.{Txscript}
use klingdex.Swap.Timelocks.{get_timeout_blocks}
use klingdex.Swap.Musig2Lib.{Musig2Lib}
use klingdex.Swap.Musig2
use klingdex.Swap.Musig2.{Musig2Session, Musig2Error}
use klingdex.Swap.Musig2.Address.{taproot_address_with_refund}
use klingdex.Swap.HtlcSession.{HtlcSession, SessionError, generate_swap_address_with_roles}
use klingdex.Swap.HtlcSession
use klingdex.Swap.Types.{is_initiator}
use klingdex.Swap.Secrets
use klingdex.Swap.Coordinator.{
  CoordError, bad_remote_key, no_address, no_local_key, nil_pointer, swap_error, musig2_error,
  unknown_chain, not_htlc, ChainMusig2, Musig2Data, ChainHtlc, HtlcData, ActiveSwap, is_htlc,
  is_musig2, Reply, fail, done, announce, proceed, wrap,
}
use klingdex.Swap.Coordinator.Start.{address_of}

-- A step on part of a swap: what it leaves, and whether it failed.
abbrev pub Step : Type 0 → Type 0
Step S = S × Result CoordError (Unit {0})

abbrev pub stop_on : {S : Type 0} → S → Option Musig2Error → Step S
stop_on s none = (s, ok tt)
stop_on s (some e) = (s, err (musig2_error e))

module _ {c : Crypto} (l : Musig2Lib c) (t : Txscript) where
  open c use {PubKey, pub_key, parse_pub_key}

  unfoldable pub set_chain_key : PubKey → ChainMusig2 l t → Step (ChainMusig2 l t)
  set_chain_key k x =
      let r = Musig2.set_remote_pub_key l (some k) x.session in
      stop_on (record x { session = r.0 }) r.1

  unfoldable pub store_address :
      ChainMusig2 l t → Musig2Session l × Result Musig2Error String → Step (ChainMusig2 l t)
  store_address x (s, err e) = (record x { session = s }, err (musig2_error e))
  store_address x (s, ok a) = (record x { session = s; taproot_address = a }, ok tt)

  unfoldable pub make_chain_address : PubKey → ℕ → ChainMusig2 l t → Step (ChainMusig2 l t)
  unfolding store_address
  make_chain_address refund timeout x =
      elim (taproot_address_with_refund l t refund timeout x.session) [
        | err e ↦ (x, err (musig2_error e))
        | ok r ↦ store_address x r
      ]

  abbrev pub with_chains :
      ActiveSwap l t → Musig2Data l t → ChainMusig2 l t → ChainMusig2 l t → ActiveSwap l t
  with_chains a d x y = record a {
    musig2_data = some (record d { offer_chain = x; request_chain = y });
  }

  -- The maker's refund key is in the output on the offer chain, the taker's in the other.
  unfoldable pub set_musig2_keys : PubKey → ActiveSwap l t → Musig2Data l t → Reply l t (Unit {0})
  unfolding set_chain_key make_chain_address
  set_musig2_keys k a d =
      let own = pub_key d.local_priv_key in
      let maker = if is_initiator a.swap.role then own else k in
      let taker = if is_initiator a.swap.role then k else own in
      let x = set_chain_key k d.offer_chain in
      let y = set_chain_key k d.request_chain in
      let x' = make_chain_address maker (get_timeout_blocks a.swap.offer.offer_chain true) x.0 in
      let y' = make_chain_address taker (get_timeout_blocks a.swap.offer.request_chain false) y.0 in
      proceed l t (with_chains a d x.0 d.request_chain) x.1 (λ _.
        proceed l t (with_chains a d x.0 y.0) y.1 (λ _.
          proceed l t (with_chains a d x'.0 y.0) x'.1 (λ _.
            proceed l t (with_chains a d x'.0 y'.0) y'.1
              (λ _. announce l t "pubkey_exchanged" (with_chains a d x'.0 y'.0) tt))))

  -- An error here is only logged.
  store_htlc_address : ChainHtlc l t → Result SessionError (HtlcSession c t) → ChainHtlc l t
  store_htlc_address x (err e) = x
  store_htlc_address x (ok s) = record { session = s; htlc_address = address_of l t s.htlc_data }

  keep_or : {E S : Type 0} → S → Result E S → S
  keep_or s (ok s') = s'
  keep_or s (err e) = s

  unfoldable pub set_htlc_chain_key : PubKey → PubKey → PubKey → ℕ → ChainHtlc l t → ChainHtlc l t
  unfolding store_htlc_address keep_or
  set_htlc_chain_key k sender receiver timeout x =
      let s = keep_or x.session (HtlcSession.set_remote_pub_key c t (some k) x.session) in
      let x' = record x { session = s } in
      if str_eq x.htlc_address ""
      then store_htlc_address x' (generate_swap_address_with_roles c t sender receiver timeout s)
      else x'

  unfoldable pub set_htlc_keys : PubKey → ActiveSwap l t → HtlcData l t → Reply l t (Unit {0})
  unfolding set_htlc_chain_key
  set_htlc_keys k a d = elim d.local_priv_key [
    | none ↦ fail l t a no_local_key
    | some key ↦
        let maker = if is_initiator a.swap.role then pub_key key else k in
        let taker = if is_initiator a.swap.role then k else pub_key key in
        let x =
          set_htlc_chain_key k maker taker (get_timeout_blocks a.swap.offer.offer_chain true)
            d.offer_chain in
        let y =
          set_htlc_chain_key k taker maker (get_timeout_blocks a.swap.offer.request_chain false)
            d.request_chain in
        done l t (record a { htlc_data = some (record d { offer_chain = x; request_chain = y }) })
          tt
  ]

  -- An HTLC swap has HTLC data; without either kind of data Go would stop.
  keys_by_method :
      Bool
      → PubKey
      → ActiveSwap l t
      → Option (HtlcData l t)
      → Option (Musig2Data l t)
      → Reply l t (Unit {0})
  unfolding set_htlc_keys set_musig2_keys
  keys_by_method true k a (some h) m = set_htlc_keys k a h
  keys_by_method true k a none m = fail l t a nil_pointer
  keys_by_method false k a h (some m) = set_musig2_keys k a m
  keys_by_method false k a h none = fail l t a nil_pointer

  -- The handler `SetRemotePubKey` on its swap.
  unfoldable pub set_remote_pub_key : List ℕ → ActiveSwap l t → Reply l t (Unit {0})
  unfolding keys_by_method is_htlc
  set_remote_pub_key bytes a = proceed l t a (of_option bad_remote_key (parse_pub_key bytes)) (λ k.
      proceed l t a (wrap swap_error (Secrets.set_remote_pub_key c (some k) a.swap)) (λ s.
        let a' = record a { swap = s } in
        keys_by_method (is_htlc l t a') k a' a'.htlc_data a'.musig2_data))

  unfoldable pub get_local_pub_key : ActiveSwap l t → List ℕ
  get_local_pub_key a = a.swap.local_pub_key

  abbrev pub musig2_addresses : Option (Musig2Data l t) → String × String
  musig2_addresses none = ("", "")
  musig2_addresses (some d) = (d.offer_chain.taproot_address, d.request_chain.taproot_address)

  abbrev pub htlc_addresses : Option (HtlcData l t) → String × String
  htlc_addresses none = ("", "")
  htlc_addresses (some d) = (d.offer_chain.htlc_address, d.request_chain.htlc_address)

  -- `GetHTLCAddresses`
  unfoldable pub get_htlc_addresses : ActiveSwap l t → Result CoordError (String × String)
  unfolding is_htlc
  get_htlc_addresses a = if is_htlc l t a then ok (htlc_addresses a.htlc_data) else err not_htlc

  is_present : {A : Type 0} → Option A → Bool
  is_present none = false
  is_present (some _) = true

  -- The escrow addresses on the offer chain and the request chain.
  unfoldable pub get_swap_addresses : ActiveSwap l t → String × String
  unfolding is_htlc is_musig2 is_present
  get_swap_addresses a =
      if is_musig2 l t a
      then (if is_present a.musig2_data
          then musig2_addresses a.musig2_data
          else (if is_htlc l t a then htlc_addresses a.htlc_data else ("", "")))
      else (if is_htlc l t a then htlc_addresses a.htlc_data else ("", ""))

  -- The data of a chain; `none` is an unknown one.
  unfoldable pub get_chain_data :
      ActiveSwap l t → Musig2Data l t → String → Option (ChainMusig2 l t)
  get_chain_data a d symbol =
      if str_eq symbol a.swap.offer.offer_chain
      then some d.offer_chain
      else (if str_eq symbol a.swap.offer.request_chain then some d.request_chain else none)

  taproot_of : Option (ChainMusig2 l t) → Result CoordError String
  taproot_of none = err unknown_chain
  taproot_of (some x) = if str_eq x.taproot_address "" then err no_address else ok x.taproot_address

  unfoldable pub get_taproot_address : String → ActiveSwap l t → Result CoordError String
  unfolding taproot_of get_chain_data
  get_taproot_address symbol a = elim a.musig2_data [
    | none ↦ err nil_pointer
    | some d ↦ taproot_of (get_chain_data a d symbol)
  ]
