-- ===== src/Swap/Coordinator/Agreement/Musig2.antt =====
-- The maker and the taker of a MuSig2 swap reach the same Taproot addresses.
use klingdex.Prelude.{
  ok-injective, ℕ, String, true, false, ◌≡◌, refl, sym, ◌∙◌, none, some, List, [], ◌∷◌, Result, ok,
  >>=-eq-ok, inl, inr, Option-cases, Result-cases,
}
use klingdex.Chain.{Network}
use klingdex.Swap.Crypto.{Crypto}
use klingdex.Swap.Txscript.{Txscript}
use klingdex.Swap.Timelocks.{get_timeout_blocks}
use klingdex.Swap.Musig2Lib.{Musig2Lib}
use klingdex.Swap.Types.{initiator, responder, Swap, musig2, Offer}
use klingdex.Swap.Secrets
use klingdex.Swap.Secrets.{set_local_pub_key, generate_swap_secret}
use klingdex.Swap.Coordinator.{
  CoordError, musig2_error, Backends, ActiveSwap, ChainMusig2, wrap-eq-ok, wrap, is_htlc,
}
use klingdex.Swap.Coordinator.Start.{
  Fresh, start_initiator, start_responder, initiate_method, respond_method, respond_musig2_chain,
  of_outcome, chain_musig2, initiate_musig2_swap, respond_musig2_swap,
}
use klingdex.Swap.Musig2
use klingdex.Swap.Musig2.{Musig2Session, Musig2Error, new_musig2_session}
use klingdex.Swap.Musig2.Address.{taproot_address_with_refund}
use klingdex.Swap.Coordinator.Keys.{
  set_remote_pub_key, set_musig2_keys, set_chain_key, make_chain_address, store_address,
  get_swap_addresses,
}
use klingdex.Swap.Coordinator.Agreement.{Started, start_initiator-ok, start_responder-ok}
use klingdex.Swap.Coordinator.Agreement.Escrow.{
  fresh_musig2, new_musig2_session-ok, collapse, keyed, escrow, respond_musig2_chain-ok,
  set-fresh_musig2, same_key, escrow_comm,
}

module _ {c : Crypto} (l : Musig2Lib c) (t : Txscript) where
  open c use {PrivKey, PubKey, pub_key, serialize_compressed, sha256}

  keyed_start :
      (symbol : String) (n : Network) (k : PrivKey) (remote : PubKey) {x x' : Musig2Session l}
      → new_musig2_session l symbol n k ≡ ok x
      → of_outcome l t (Musig2.set_remote_pub_key l (some remote) x) ≡ ok x'
      → (g : l.AggregateKey) × (l.aggregate_keys (pub_key k ∷ remote ∷ []) ≡ some g)
        × (x' ≡ keyed l t symbol n k remote g)
  unfolding of_outcome Musig2.set_remote_pub_key fresh_musig2
  keyed_start symbol n k remote hx hx' =
      let h = rw (new_musig2_session-ok l t symbol n k hx) at hx' in
      elim (Option-cases (l.aggregate_keys (pub_key k ∷ remote ∷ []))) [
        | inl e ↦
            absurd (let h = rw (of_outcome, Musig2.set_remote_pub_key, fresh_musig2, e) at h in cc)
        | inr (g, e) ↦ (
          g,
          e,
          let h = rw (set-fresh_musig2 l t symbol n k remote g e) at h in sym (ok-injective _ _ h),
        )
      ]

  abbrev responded : Swap → PrivKey → ChainMusig2 l t → ChainMusig2 l t → ActiveSwap l t
  responded s k x y = record {
    swap = s;
    musig2_data = some (record { local_priv_key = k; offer_chain = x; request_chain = y });
    htlc_data = none;
  }

  responded-Has :
      (s : Swap) (k : PrivKey) (x y : ChainMusig2 l t) (b : ActiveSwap l t)
      → Path (Result CoordError (ActiveSwap l t)) (ok (responded s k x y)) (ok b)
      → s.method ≡ musig2
      → (get_swap_addresses l t b ≡ (x.taproot_address, y.taproot_address)) × (b.swap ≡ s)
  unfolding get_swap_addresses
  responded-Has s k x y b h m =
      let e : b ≡ responded s k x y = sym (ok-injective (responded s k x y) b h) in
      (rw (e, m) refl, rw e refl)

  responds :
      (n : Network) (s : Swap) (o : Offer) (k : PrivKey) (remote : PubKey) {b : ActiveSwap l t}
      → respond_musig2_swap l t n s o k remote ≡ ok b
      → s.method ≡ musig2
      → (g : l.AggregateKey) × (p q : String) × (l.aggregate_keys (pub_key k ∷ remote ∷ [])
          ≡ some g)
        × (escrow l t o.offer_chain n k remote g remote (get_timeout_blocks o.offer_chain true)
            ≡ ok p)
        × (escrow l t o.request_chain n k remote g
              (pub_key k)
              (get_timeout_blocks o.request_chain false)
            ≡ ok q)
        × (get_swap_addresses l t b ≡ (p, q))
        × (b.swap ≡ s)
  unfolding respond_musig2_swap
  responds n s o k remote {b} h m =
      let (x, hx, h) = >>=-eq-ok (wrap musig2_error (new_musig2_session l o.offer_chain n k)) _ h in
      let (y, hy, h) =
        >>=-eq-ok (wrap musig2_error (new_musig2_session l o.request_chain n k)) _ h in
      let (x', hx', h) =
        >>=-eq-ok (of_outcome l t (Musig2.set_remote_pub_key l (some remote) x)) _ h in
      let (y', hy', h) =
        >>=-eq-ok (of_outcome l t (Musig2.set_remote_pub_key l (some remote) y)) _ h in
      let (u, hu, h) =
        >>=-eq-ok (respond_musig2_chain l t remote (get_timeout_blocks o.offer_chain true) x') _
          h in
      let (v, hv, h) =
        >>=-eq-ok
          (respond_musig2_chain l t (pub_key k) (get_timeout_blocks o.request_chain false) y') _
          h in
      let (g, eg, ex) = keyed_start o.offer_chain n k remote (wrap-eq-ok musig2_error _ hx) hx' in
      let (w, ew, ey) = keyed_start o.request_chain n k remote (wrap-eq-ok musig2_error _ hy) hy' in
      let eu = rw ex at (respond_musig2_chain-ok l t _ _ x' hu) in
      let ev = rw (ey, same_key l t ew eg) at (respond_musig2_chain-ok l t _ _ y' hv) in
      let (ad, es) = responded-Has s k u v b h m in
      (g, u.taproot_address, v.taproot_address, eg, eu, ev, ad, es)

  -- A chain of the maker, once its session has both keys.
  make_chain_address-ok :
      (refund : PubKey) (n : ℕ) (x : ChainMusig2 l t) {p : String}
      → collapse l t (taproot_address_with_refund l t refund n x.session) ≡ ok p
      → ((make_chain_address l t refund n x).1 ≡ ok tt)
        × ((make_chain_address l t refund n x).0.taproot_address ≡ p)
  unfolding make_chain_address store_address
  make_chain_address-ok refund n x h =
      elim (Result-cases (taproot_address_with_refund l t refund n x.session)) [
        | inr (e, f) ↦ absurd (let h = rw f at h in cc)
        | inl ((u, r), f) ↦
            let h = rw f at h in rw (make_chain_address, f, store_address, h) (refl, refl)
      ]

  abbrev musig2_started : Network → Swap → Offer → PrivKey → ActiveSwap l t
  musig2_started n s o k =
      responded s k (chain_musig2 l t (fresh_musig2 l t o.offer_chain n k) "")
        (chain_musig2 l t (fresh_musig2 l t o.request_chain n k) "")

  initiate_musig2_swap-ok :
      (n : Network) (s : Swap) (o : Offer) (k : PrivKey) {a : ActiveSwap l t}
      → initiate_musig2_swap l t n s o k ≡ ok a
      → a ≡ musig2_started n s o k
  unfolding initiate_musig2_swap
  initiate_musig2_swap-ok n s o k {a} h =
      let (x, hx, h) = >>=-eq-ok (wrap musig2_error (new_musig2_session l o.offer_chain n k)) _ h in
      let (y, hy, h) =
        >>=-eq-ok (wrap musig2_error (new_musig2_session l o.request_chain n k)) _ h in
      let ex = new_musig2_session-ok l t o.offer_chain n k (wrap-eq-ok musig2_error _ hx) in
      let ey = new_musig2_session-ok l t o.request_chain n k (wrap-eq-ok musig2_error _ hy) in
      sym (ok-injective (musig2_started n s o k) a (rw (ex, ey) at h))

  set_chain_key-ok :
      (symbol : String) (n : Network) (k : PrivKey) (remote : PubKey) (g : l.AggregateKey)
      → l.aggregate_keys (pub_key k ∷ remote ∷ []) ≡ some g
      → set_chain_key l t remote (chain_musig2 l t (fresh_musig2 l t symbol n k) "")
        ≡ (chain_musig2 l t (keyed l t symbol n k remote g) "", ok tt)
  unfolding set_chain_key
  set_chain_key-ok symbol n k remote g e = rw (set-fresh_musig2 l t symbol n k remote g e) refl

  maker_joins :
      (n : Network) (s : Swap) (o : Offer) (k : PrivKey) (remote : PubKey) (g : l.AggregateKey)
      {p q : String}
      → Started l t initiator musig2 o k s
      → l.aggregate_keys (pub_key k ∷ remote ∷ []) ≡ some g
      → escrow l t o.offer_chain n k remote g (pub_key k) (get_timeout_blocks o.offer_chain true)
        ≡ ok p
      → escrow l t o.request_chain n k remote g remote (get_timeout_blocks o.request_chain false)
        ≡ ok q
      → let r = set_remote_pub_key l t (serialize_compressed remote) (musig2_started n s o k) in
        (r.result ≡ ok tt) × (get_swap_addresses l t r.active ≡ (p, q))
  unfolding set_remote_pub_key set_musig2_keys Secrets.set_remote_pub_key get_swap_addresses is_htlc
  maker_joins n s o k remote g (hl, hr, hm, ho) e hp hq =
      let (px, pa) =
        make_chain_address-ok (pub_key k) (get_timeout_blocks o.offer_chain true)
          (chain_musig2 l t (keyed l t o.offer_chain n k remote g) "") hp in
      let (qx, qa) =
        make_chain_address-ok remote (get_timeout_blocks o.request_chain false)
          (chain_musig2 l t (keyed l t o.request_chain n k remote g) "") hq in
      rw
        (
          c.parse-serialize_compressed remote,
          hm,
          hr,
          ho,
          set_chain_key-ok o.offer_chain n k remote g e,
          set_chain_key-ok o.request_chain n k remote g e,
          px,
          qx,
          pa,
          qa,
        )
        (refl, refl)

  agree_from :
      (n : Network) (s u : Swap) (o : Offer) (k q : PrivKey) (h : l.AggregateKey) {x y : String}
      (a b : ActiveSwap l t)
      → Started l t initiator musig2 o k s
      → Started l t responder musig2 o q u
      → a ≡ musig2_started n s o k
      → l.aggregate_keys (pub_key q ∷ pub_key k ∷ []) ≡ some h
      → escrow l t o.offer_chain n q
          (pub_key k)
          h
          (pub_key k)
          (get_timeout_blocks o.offer_chain true)
        ≡ ok x
      → escrow l t o.request_chain n q
          (pub_key k)
          h
          (pub_key q)
          (get_timeout_blocks o.request_chain false)
        ≡ ok y
      → get_swap_addresses l t b ≡ (x, y)
      → b.swap ≡ u
      → let r = set_remote_pub_key l t b.swap.local_pub_key a in
        (r.result ≡ ok tt) × (get_swap_addresses l t r.active ≡ get_swap_addresses l t b)
  agree_from n s u o k q h a b hs hu ea eh hx hy ad es =
      let eg = l.aggregate_keys_comm (pub_key k) (pub_key q) ∙ eh in
      let taker : b.swap.local_pub_key ≡ serialize_compressed (pub_key q) = rw es hu.0 in
      rw (ad, taker, ea)
        (maker_joins n s o k (pub_key q) h hs eg
          (escrow_comm l t o.offer_chain n k q (pub_key k) (get_timeout_blocks o.offer_chain true)
              eg eh
            ∙ hx)
          (escrow_comm l t o.request_chain n k q (pub_key q)
              (get_timeout_blocks o.request_chain false) eg eh
            ∙ hy))

  -- Two nodes on one network start a MuSig2 swap of the same offer, the taker with the maker's key.
  -- Once the maker has the taker's key, its handler succeeds, and both parties have the same
  -- Taproot addresses on both chains, refund paths included, though each lists its own key first.
  pub taproot_addresses_agree :
      (bs ds : Backends) (f g : Fresh l t) (id : String) (o : Offer) (n : Network) (hash : List ℕ)
      {a b : ActiveSwap l t}
      → start_initiator l t bs f id o musig2 n ≡ ok a
      → start_responder l t ds g id o a.swap.local_pub_key hash musig2 n ≡ ok b
      → let r = set_remote_pub_key l t b.swap.local_pub_key a in
        (r.result ≡ ok tt) × (get_swap_addresses l t r.active ≡ get_swap_addresses l t b)
  unfolding initiate_method respond_method
  taproot_addresses_agree bs ds f g id o n hash {a} {b} ha hb =
      let (k, s, hs, ia) = start_initiator-ok l t bs f id o musig2 n ha in
      let ea = initiate_musig2_swap-ok n s o k ia in
      let key : a.swap.local_pub_key ≡ serialize_compressed (pub_key k) = rw ea hs.0 in
      let hb' = rw key at hb in
      let (q, u, hu, ib) = start_responder-ok l t ds g id o (pub_key k) hash musig2 n hb' in
      let (h, x, y, eh, hx, hy, ad, es) = responds n u o q (pub_key k) ib hu.2 in
      agree_from n s u o k q h a b hs hu ea eh hx hy ad es
