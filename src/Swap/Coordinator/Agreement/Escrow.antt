-- ===== src/Swap/Coordinator/Agreement/Escrow.antt =====
-- A MuSig2 session that has both keys, and the Taproot address that it gives.
use klingdex.Prelude.{
  ok-injective, ℕ, String, false, ◌≡◌, refl, sym, ap, ◌∙◌, Option, none, some, [], ◌∷◌, Result, ok,
  err, >>=-eq-ok, arith, inl, inr, Option-cases, Result-cases,
}
use klingdex.Chain.{Network}
use klingdex.Swap.Crypto.{Crypto}
use klingdex.Swap.Txscript.{Txscript}
use klingdex.Swap.Musig2Lib.{Musig2Lib}
use klingdex.Swap.Coordinator.{musig2_error, ChainMusig2, wrap-eq-ok, wrap}
use klingdex.Swap.Coordinator.Start.{respond_musig2_chain}
use klingdex.Swap.Musig2
use klingdex.Swap.Musig2.{Musig2Session, Musig2Error, new_musig2_session}
use klingdex.Swap.Musig2.Address.{taproot_address_with_refund, aggregated_pub_key}
use klingdex.Swap.Taproot.{build_taproot_script_tree}
use klingdex.Chain

module _ {c : Crypto} (l : Musig2Lib c) (t : Txscript) where
  open c use {PrivKey, PubKey, pub_key, serialize_compressed, sha256}

  unfoldable pub fresh_musig2 : String → Network → PrivKey → Musig2Session l
  fresh_musig2 symbol n k = record {
    symbol = symbol;
    network = n;
    local_priv_key = k;
    local_pub_key = pub_key k;
    remote_pub_key = none;
    aggregated_key = none;
    local_nonces = none;
    remote_nonces = [];
    has_remote_nonce = false;
    used_nonces = [];
    nonce_used = false;
    invalidated = false;
    context = none;
    session = none;
    tweak_applied = false;
    script_tree = none;
  }

  pub new_musig2_session-ok :
      (symbol : String) (n : Network) (k : PrivKey) {s : Musig2Session l}
      → new_musig2_session l symbol n k ≡ ok s
      → s ≡ fresh_musig2 symbol n k
  unfolding new_musig2_session fresh_musig2
  new_musig2_session-ok symbol n k h = ground arith

  -- The address that a session gives, or its error.
  abbrev pub collapse :
      Result Musig2Error (Musig2Session l × Result Musig2Error String) → Result Musig2Error String
  collapse (err e) = err e
  collapse (ok r) = r.1

  -- It is determined by the chain and the aggregated key.
  collapse-Same :
      (s u : Musig2Session l) (refund : PubKey) (n : ℕ)
      → s.aggregated_key ≡ u.aggregated_key
      → s.symbol ≡ u.symbol
      → s.network ≡ u.network
      → collapse (taproot_address_with_refund l t refund n s)
        ≡ collapse (taproot_address_with_refund l t refund n u)
  unfolding taproot_address_with_refund aggregated_pub_key
  collapse-Same s u refund n ea es en =
      rw (ea, es, en)
        (elim (Option-cases u.aggregated_key) [
          | inl e ↦ rw e refl
          | inr (g, e) ↦
              elim (Result-cases (build_taproot_script_tree c t (l.final_key g) refund n)) [
                | inr (x, f) ↦ rw (e, f) refl
                | inl (x, f) ↦ elim (Option-cases (Chain.get u.symbol u.network)) [
                  | inl w ↦ rw (e, f, w) refl
                  | inr (p, w) ↦ rw (e, f, w) refl
                ]
              ]
        ])

  -- A session that has the other party's key.
  unfoldable pub keyed : String → Network → PrivKey → PubKey → l.AggregateKey → Musig2Session l
  unfolding fresh_musig2
  keyed symbol n k remote g = record (fresh_musig2 symbol n k) {
    remote_pub_key = some remote;
    aggregated_key = some g;
  }

  abbrev pub escrow :
      String → Network → PrivKey → PubKey → l.AggregateKey → PubKey → ℕ → Result Musig2Error String
  escrow symbol n k remote g refund timeout =
      collapse (taproot_address_with_refund l t refund timeout (keyed symbol n k remote g))

  pub respond_musig2_chain-ok :
      (refund : PubKey) (n : ℕ) (s : Musig2Session l) {x : ChainMusig2 l t}
      → respond_musig2_chain l t refund n s ≡ ok x
      → collapse (taproot_address_with_refund l t refund n s) ≡ ok x.taproot_address
  unfolding respond_musig2_chain
  respond_musig2_chain-ok refund n s {x} h =
      let (r, hr, h) =
        >>=-eq-ok (wrap musig2_error (taproot_address_with_refund l t refund n s)) _ h in
      let (a, ha, h) = >>=-eq-ok (wrap musig2_error r.1) _ h in
      let e = wrap-eq-ok musig2_error _ hr in
      let f = wrap-eq-ok musig2_error _ ha in
      let address : x.taproot_address ≡ a =
        ap (λ z. z.taproot_address) (sym (ok-injective _ x h)) in
      rw (e, address) f

  pub set-fresh_musig2 :
      (symbol : String) (n : Network) (k : PrivKey) (remote : PubKey) (g : l.AggregateKey)
      → l.aggregate_keys (pub_key k ∷ remote ∷ []) ≡ some g
      → Musig2.set_remote_pub_key l (some remote) (fresh_musig2 symbol n k)
        ≡ (keyed symbol n k remote g, none)
  unfolding Musig2.set_remote_pub_key keyed fresh_musig2
  set-fresh_musig2 symbol n k remote g e = rw (Musig2.set_remote_pub_key, e) refl

  pub same_key : {A : Type 0} {a b : A} {r : Option A} → r ≡ some a → r ≡ some b → a ≡ b
  same_key h i = cc

  -- The same keys in the other order give the same escrow.
  pub escrow_comm :
      (symbol : String) (n : Network) (k q : PrivKey) {g h : l.AggregateKey} (refund : PubKey)
      (m : ℕ)
      → l.aggregate_keys (pub_key k ∷ pub_key q ∷ []) ≡ some g
      → l.aggregate_keys (pub_key q ∷ pub_key k ∷ []) ≡ some h
      → escrow symbol n k (pub_key q) g refund m ≡ escrow symbol n q (pub_key k) h refund m
  unfolding keyed fresh_musig2
  escrow_comm symbol n k q {g} {h} refund m eg eh =
      let same : g ≡ h = same_key eg (l.aggregate_keys_comm (pub_key k) (pub_key q) ∙ eh) in
      collapse-Same (keyed symbol n k (pub_key q) g) (keyed symbol n q (pub_key k) h) refund m
        (ap some same) refl refl
