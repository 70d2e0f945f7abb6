-- ===== src/Swap/Coordinator/Agreement/Htlc.antt =====
-- The maker and the taker of an HTLC swap reach the same escrow addresses.
use klingdex.Prelude.{
  ok-injective, ℕ, String, Bool, true, false, ◌≡◌, refl, sym, ◌∙◌, Option, none, some, List, [],
  Result, ok, >>=-eq-ok, arith, inl, inr, Bool-cases, Result-cases, ◌==◌, length,
}
use klingdex.Chain.{Network}
use klingdex.Swap.Crypto.{Crypto}
use klingdex.Swap.Txscript.{Txscript}
use klingdex.Swap.Timelocks.{get_timeout_blocks}
use klingdex.Swap.Musig2Lib.{Musig2Lib}
use klingdex.Swap.HtlcSession.{
  HtlcSession, SessionError, ScriptData, new_htlc_session_with_key, generate_secret,
  set_secret_hash, generate_swap_address_with_roles, build_htlc_script_data,
}
use klingdex.Swap.HtlcSession
use klingdex.Swap.Types.{initiator, responder, Swap, htlc, Offer}
use klingdex.Swap.Secrets
use klingdex.Swap.Secrets.{set_local_pub_key, generate_swap_secret}
use klingdex.Swap.Coordinator.{
  CoordError, Backends, ChainHtlc, ActiveSwap, is_htlc, is_htlc_method, is_musig2,
}
use klingdex.Swap.Coordinator.Start.{
  Fresh, start_initiator, start_responder, initiate_htlc_swap, respond_htlc_swap, initiate_method,
  respond_method, respond_htlc_chain,
}
use klingdex.Swap.Coordinator.Keys.{
  set_remote_pub_key, set_htlc_chain_key, set_htlc_keys, get_swap_addresses, htlc_addresses,
}
use klingdex.Swap.Coordinator.Agreement.{Started, start_initiator-ok, start_responder-ok}

module _ {c : Crypto} (l : Musig2Lib c) (t : Txscript) where
  open c use {PrivKey, PubKey, pub_key, serialize_compressed, sha256}

  -- A session without a remote key and a script.
  abbrev fresh_session : String → Network → PrivKey → List ℕ → List ℕ → Bool → HtlcSession c t
  fresh_session symbol n k secret hash first = record {
    symbol = symbol;
    network = n;
    local_priv_key = some k;
    local_pub_key = pub_key k;
    remote_pub_key = none;
    secret = secret;
    secret_hash = hash;
    htlc_data = none;
    is_initiator = first;
  }

  abbrev htlc_started : Network → Swap → Offer → PrivKey → List ℕ → ActiveSwap l t
  htlc_started n s o k b = record {
    swap = record s { secret = b; secret_hash = sha256 b };
    musig2_data = none;
    htlc_data = some (record {
      local_priv_key = some k;
      offer_chain = record {
        session = fresh_session o.offer_chain n k b (sha256 b) true;
        htlc_address = "";
      };
      request_chain = record {
        session = fresh_session o.request_chain n k [] (sha256 b) false;
        htlc_address = "";
      };
    });
  }

  initiate_htlc_swap-ok :
      (n : Network) (s : Swap) (o : Offer) (k : PrivKey) (random : Option (List ℕ))
      {a : ActiveSwap l t}
      → initiate_htlc_swap l t n s o k random ≡ ok a
      → (b : List ℕ) × (a ≡ htlc_started n s o k b)
  unfolding initiate_htlc_swap new_htlc_session_with_key generate_secret set_secret_hash
  initiate_htlc_swap-ok n s o k none h = cc
  initiate_htlc_swap-ok n s o k (some b) h = let h' = rw (c.sha256_bytes b).0 at h in (b, cc)

  respond_htlc_chain-ok :
      (sender receiver : PubKey) (n : ℕ) (s : HtlcSession c t) {x : ChainHtlc l t}
      → respond_htlc_chain l t sender receiver n s ≡ ok x
      → (d : ScriptData) × (build_htlc_script_data c t s.secret_hash receiver sender n s.symbol
            s.network
          ≡ ok d)
        × (x.htlc_address ≡ d.address)
  unfolding respond_htlc_chain generate_swap_address_with_roles
  respond_htlc_chain-ok sender receiver n s h =
      elim (Result-cases
        (build_htlc_script_data c t s.secret_hash receiver sender n s.symbol s.network)) [
          | inl (d, e) ↦ (d, e, ground arith)
          | inr (e, f) ↦ absurd (ground arith)
        ]

  abbrev responded : Swap → PrivKey → ChainHtlc l t → ChainHtlc l t → ActiveSwap l t
  responded s k x y = record {
    swap = s;
    musig2_data = none;
    htlc_data = some (record { local_priv_key = some k; offer_chain = x; request_chain = y });
  }

  responded-Has :
      (s : Swap) (k : PrivKey) (x y : ChainHtlc l t) (b : ActiveSwap l t) {p q : String}
      → Path (Result CoordError (ActiveSwap l t)) (ok (responded s k x y)) (ok b)
      → x.htlc_address ≡ p
      → y.htlc_address ≡ q
      → (htlc_addresses l t b.htlc_data ≡ (p, q))
        × (b.swap ≡ s)
        × (is_htlc_method s.method ≡ true → is_htlc l t b ≡ true)
  unfolding is_htlc
  responded-Has s k x y b h hp hq =
      let e : b ≡ responded s k x y = sym (ok-injective (responded s k x y) b h) in
      (rw (e, hp, hq) refl, rw e refl, λ m. rw (e, m) refl)

  respond_htlc_swap-ok :
      (n : Network) (s : Swap) (o : Offer) (k : PrivKey) (remote : PubKey) (hash : List ℕ)
      {b : ActiveSwap l t}
      → respond_htlc_swap l t n s o k remote hash ≡ ok b
      → (d e : ScriptData) × (build_htlc_script_data c t hash
            (pub_key k)
            remote
            (get_timeout_blocks o.offer_chain true)
            o.offer_chain
            n
          ≡ ok d)
        × (build_htlc_script_data c t hash remote
              (pub_key k)
              (get_timeout_blocks o.request_chain false)
              o.request_chain
              n
            ≡ ok e)
        × (htlc_addresses l t b.htlc_data ≡ (d.address, e.address))
        × (b.swap ≡ s)
        × (is_htlc_method s.method ≡ true → is_htlc l t b ≡ true)
  unfolding respond_htlc_swap new_htlc_session_with_key set_secret_hash
      HtlcSession.set_remote_pub_key is_htlc
  respond_htlc_swap-ok n s o k remote hash {b} h = elim (Bool-cases (length hash == 32)) [
    | inr e ↦ absurd (let h' = rw e at h in cc)
    | inl e ↦
        let h' = rw e at h in
        let (x, hx, h2) = >>=-eq-ok _ _ h' in
        let (y, hy, h3) = >>=-eq-ok _ _ h2 in
        let (d, bd, ad) = respond_htlc_chain-ok _ _ _ _ hx in
        let (f, bf, af) = respond_htlc_chain-ok _ _ _ _ hy in
        let (p, q, r) = responded-Has s k x y b h3 ad af in (d, f, bd, bf, p, q, r)
  ]

  -- The maker's handler, once the taker's key arrives.
  maker_joins :
      (n : Network) (s : Swap) (o : Offer) (k : PrivKey) (remote : PubKey) (b : List ℕ)
      (d e : ScriptData)
      → Started l t initiator htlc o k s
      → build_htlc_script_data c t
          (sha256 b)
          remote
          (pub_key k)
          (get_timeout_blocks o.offer_chain true)
          o.offer_chain
          n
        ≡ ok d
      → build_htlc_script_data c t
          (sha256 b)
          (pub_key k)
          remote
          (get_timeout_blocks o.request_chain false)
          o.request_chain
          n
        ≡ ok e
      → let r = set_remote_pub_key l t (serialize_compressed remote) (htlc_started n s o k b) in
        (r.result ≡ ok tt) × (get_swap_addresses l t r.active ≡ (d.address, e.address))
  unfolding set_remote_pub_key set_htlc_chain_key get_swap_addresses
      generate_swap_address_with_roles Secrets.set_remote_pub_key HtlcSession.set_remote_pub_key
      is_htlc set_htlc_keys
  maker_joins n s o k remote b d e (hl, hr, hm, ho) hd he =
      let hb = (c.sha256_bytes b).0 in
      rw (c.parse-serialize_compressed remote, hm, hr, ho, hb, hd, he) (refl, refl)

  htlc-get_swap_addresses :
      (a : ActiveSwap l t)
      → a.swap.method ≡ htlc
      → is_htlc l t a ≡ true
      → get_swap_addresses l t a ≡ htlc_addresses l t a.htlc_data
  unfolding get_swap_addresses is_htlc is_musig2
  htlc-get_swap_addresses a m h = ground arith

  agree_from :
      (n : Network) (s u : Swap) (o : Offer) (k q : PrivKey) (x : List ℕ) (d e : ScriptData)
      (a b : ActiveSwap l t)
      → Started l t initiator htlc o k s
      → Started l t responder htlc o q u
      → a ≡ htlc_started n s o k x
      → build_htlc_script_data c t
          (sha256 x)
          (pub_key q)
          (pub_key k)
          (get_timeout_blocks o.offer_chain true)
          o.offer_chain
          n
        ≡ ok d
      → build_htlc_script_data c t
          (sha256 x)
          (pub_key k)
          (pub_key q)
          (get_timeout_blocks o.request_chain false)
          o.request_chain
          n
        ≡ ok e
      → htlc_addresses l t b.htlc_data ≡ (d.address, e.address)
      → b.swap ≡ u
      → is_htlc l t b ≡ true
      → let r = set_remote_pub_key l t b.swap.local_pub_key a in
        (r.result ≡ ok tt) × (get_swap_addresses l t r.active ≡ get_swap_addresses l t b)
  agree_from n s u o k q x d e a b hs hu ea bd be ad es kind =
      let taker : b.swap.local_pub_key ≡ serialize_compressed (pub_key q) = rw es hu.0 in
      let method : b.swap.method ≡ htlc = rw es hu.2 in
      rw (htlc-get_swap_addresses b method kind ∙ ad, taker, ea)
        (maker_joins n s o k (pub_key q) x d e hs bd be)

  -- Two nodes on one network start an HTLC swap of the same offer, the taker with the maker's key
  -- and hash. Once the maker has the taker's key, its handler succeeds, and both parties have the
  -- same escrow addresses on both chains.
  pub htlc_addresses_agree :
      (bs ds : Backends) (f g : Fresh l t) (id : String) (o : Offer) (n : Network)
      {a b : ActiveSwap l t}
      → start_initiator l t bs f id o htlc n ≡ ok a
      → start_responder l t ds g id o a.swap.local_pub_key a.swap.secret_hash htlc n ≡ ok b
      → let r = set_remote_pub_key l t b.swap.local_pub_key a in
        (r.result ≡ ok tt) × (get_swap_addresses l t r.active ≡ get_swap_addresses l t b)
  unfolding initiate_method respond_method
  htlc_addresses_agree bs ds f g id o n {a} {b} ha hb =
      let (k, s, hs, ia) = start_initiator-ok l t bs f id o htlc n ha in
      let (x, ea) = initiate_htlc_swap-ok n s o k f.htlc_secret ia in
      let key : a.swap.local_pub_key ≡ serialize_compressed (pub_key k) = rw ea hs.0 in
      let hash : a.swap.secret_hash ≡ sha256 x = rw ea refl in
      let hb' = rw (key, hash) at hb in
      let (q, u, hu, ib) = start_responder-ok l t ds g id o (pub_key k) (sha256 x) htlc n hb' in
      let (d, e, bd, be, ad, es, mb) = respond_htlc_swap-ok n u o q (pub_key k) (sha256 x) ib in
      agree_from n s u o k q x d e a b hs hu ea bd be ad es (mb (rw hu.2 refl))
