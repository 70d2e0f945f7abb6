-- ===== src/Swap/Coordinator/Agreement.antt =====
-- Starting a swap, on either side: the key that was drawn, and the swap that the method's part
-- gets.
pub mod Htlc
pub mod Escrow
pub mod Musig2
use klingdex.Prelude.{
  ok-injective, ℕ, String, Bool, true, false, ◌≡◌, refl, sym, ap, ◌∙◌, Option, none, some, List, [],
  ◌∷◌, Result, ok, err, ◌>>=◌, ◌>>◌, guard, >>=-eq-ok, arith, inl, inr, Option-cases, Bool-cases,
  Result-cases, str_eq, ◌==◌, length, if◌then◌else◌, not,
}
use klingdex.Chain.{Network}
use klingdex.Swap.HtlcScript.{of_option}
use klingdex.Swap.Crypto.{Crypto}
use klingdex.Swap.Txscript.{Txscript}
use klingdex.Swap.Timelocks.{get_timeout_blocks}
use klingdex.Swap.Musig2Lib.{Musig2Lib}
use klingdex.Swap.HtlcSession.{
  HtlcSession, SessionError, ScriptData, new_htlc_session_with_key, generate_secret,
  set_secret_hash, generate_swap_address_with_roles, build_htlc_script_data,
}
use klingdex.Swap.HtlcSession
use klingdex.Swap.Types.{
  Role, initiator, responder, Swap, Method, musig2, htlc, Offer, trade_id, is_initiator,
}
use klingdex.Swap.Offer.{new_swap, new_swap-Keeps}
use klingdex.Swap.Heights.{set_block_heights}
use klingdex.Swap.Secrets
use klingdex.Swap.Secrets.{set_local_pub_key, generate_swap_secret, generate_swap_secret-Keeps}
use klingdex.Swap.Coordinator.{
  CoordError, random_failed, bad_remote_key, swap_error, musig2_error, htlc_error, Backends,
  get_block_height, ChainHtlc, HtlcData, ActiveSwap, wrap, wrap-eq-ok, is_htlc, is_htlc_method,
}
use klingdex.Swap.Coordinator.Start.{
  Fresh, start_initiator, start_responder, initiate_htlc_swap, respond_htlc_swap, address_of,
  initiate_method, respond_method, respond_htlc_chain,
}
use klingdex.Swap.Coordinator.Keys.{
  set_remote_pub_key, set_htlc_chain_key, set_htlc_keys, get_swap_addresses, htlc_addresses,
}

module _ {c : Crypto} (l : Musig2Lib c) (t : Txscript) where
  open c use {PrivKey, PubKey, pub_key, serialize_compressed, sha256}

  -- What a swap keeps of its start.
  abbrev pub Started : Role → Method → Offer → PrivKey → Swap → Type 0
  Started r m o k s =
      (s.local_pub_key ≡ serialize_compressed (pub_key k))
      × (s.role ≡ r)
      × (s.method ≡ m)
      × (s.offer ≡ o)

  heights-Started :
      (r : Role) (m : Method) (o : Offer) (k : PrivKey) (s : Swap) (a b : ℕ)
      → (s.role ≡ r) × (s.method ≡ m) × (s.offer ≡ o)
      → Started r m o k (set_block_heights (set_local_pub_key c (pub_key k) s) a b)
  unfolding set_block_heights set_local_pub_key
  heights-Started initiator m o k s a b h = ground arith
  heights-Started responder m o k s a b h = ground arith

  pub start_initiator-ok :
      (bs : Backends) (f : Fresh l t) (id : String) (o : Offer) (m : Method) (n : Network)
      {a : ActiveSwap l t}
      → start_initiator l t bs f id o m n ≡ ok a
      → (k : PrivKey) × (s : Swap) × Started initiator m o k s
        × (initiate_method l t m n s o k f.htlc_secret ≡ ok a)
  unfolding start_initiator
  start_initiator-ok bs f id o m n h =
      let (s, hs, h) = >>=-eq-ok (wrap swap_error (new_swap n m initiator o f.id f.now)) _ h in
      let (x, hx, h) = >>=-eq-ok _ _ h in
      let (k, hk, h) = >>=-eq-ok (of_option random_failed f.key) _ h in
      let (p, hp, h) = >>=-eq-ok (get_block_height bs o.offer_chain) _ h in
      let (q, hq, h) = >>=-eq-ok (get_block_height bs o.request_chain) _ h in
      let (_, em, er, eo, _) =
        new_swap-Keeps n m initiator o f.id f.now (wrap-eq-ok swap_error _ hs) in
      let (fr, fm, fo) = generate_swap_secret-Keeps c f.secret _ (wrap-eq-ok swap_error _ hx) in
      (
        k,
        set_block_heights (set_local_pub_key c (pub_key k) x) p q,
        heights-Started initiator m o k x p q (fr ∙ er, fm ∙ em, fo ∙ eo),
        h,
      )

  pub start_responder-ok :
      (bs : Backends) (f : Fresh l t) (id : String) (o : Offer) (remote : PubKey) (hash : List ℕ)
      (m : Method) (n : Network) {b : ActiveSwap l t}
      → start_responder l t bs f id o (serialize_compressed remote) hash m n ≡ ok b
      → (k : PrivKey) × (s : Swap) × Started responder m o k s
        × (respond_method l t m n s o k remote hash ≡ ok b)
  unfolding start_responder Secrets.set_remote_pub_key
  start_responder-ok bs f id o remote hash m n h =
      let h = rw (start_responder, c.parse-serialize_compressed remote) at h in
      let (s, hs, h) = >>=-eq-ok (wrap swap_error (new_swap n m responder o f.id f.now)) _ h in
      let (k, hk, h) = >>=-eq-ok (of_option random_failed f.key) _ h in
      let (p, hp, h) = >>=-eq-ok (get_block_height bs o.offer_chain) _ h in
      let (q, hq, h) = >>=-eq-ok (get_block_height bs o.request_chain) _ h in
      let (_, em, er, eo, _) =
        new_swap-Keeps n m responder o f.id f.now (wrap-eq-ok swap_error _ hs) in
      let y : Swap = record s {
        id = trade_id id;
        secret_hash = hash;
        remote_pub_key = serialize_compressed remote;
      } in
      (
        k,
        set_block_heights (set_local_pub_key c (pub_key k) y) p q,
        heights-Started responder m o k y p q (er, em, eo),
        h,
      )
