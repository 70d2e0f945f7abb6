-- ===== src/Swap/Coordinator/Start.antt =====
-- internal/swap/coordinator_init.go: how a swap starts, on the maker's and the taker's side.
use klingdex.Prelude.{
  ℕ, String, true, false, Option, none, some, List, [], ◌∷◌, lookup, Result, ok, err, ◌>>=◌,
}
use klingdex.Chain.{Network}
use klingdex.Swap.HtlcScript.{of_option}
use klingdex.Swap.Crypto.{Crypto}
use klingdex.Swap.Txscript.{Txscript}
use klingdex.Swap.Timelocks.{get_timeout_blocks}
use klingdex.Swap.Musig2Lib.{Musig2Lib}
use klingdex.Swap.Musig2
use klingdex.Swap.Musig2.{Musig2Session, Musig2Error, new_musig2_session}
use klingdex.Swap.Musig2.Address.{taproot_address_with_refund}
use klingdex.Swap.HtlcSession
use klingdex.Swap.HtlcSession.{
  HtlcSession, SessionError, ScriptData, new_htlc_session_with_key, generate_secret,
  set_secret_hash, generate_swap_address_with_roles,
}
use klingdex.Swap.Types.{initiator, responder, Swap, Method, musig2, htlc, Offer, trade_id}
use klingdex.Swap.Offer.{new_swap}
use klingdex.Swap.Heights.{set_block_heights}
use klingdex.Swap.Secrets
use klingdex.Swap.Secrets.{set_local_pub_key, generate_swap_secret}
use klingdex.Swap.Coordinator.{
  CoordError, swap_exists, random_failed, unsupported_method, bad_remote_key, swap_error,
  musig2_error, htlc_error, Backends, get_block_height, ChainMusig2, ChainHtlc, ActiveSwap,
  Coordinator, put, wrap,
}

module _ {c : Crypto} (l : Musig2Lib c) (t : Txscript) where
  open c use {PrivKey, PubKey, pub_key, parse_pub_key}

  -- What the generators gave during a call, and the clock.
  pub record Fresh : Type 0 where
    pub id : Option (List ℕ)
    pub secret : Option (List ℕ)
    pub key : Option PrivKey
    pub htlc_secret : Option (List ℕ)
    pub now : ℕ

  abbrev pub chain_musig2 : Musig2Session l → String → ChainMusig2 l t
  chain_musig2 s address = record {
    session = s;
    taproot_address = address;
    local_nonce = [];
    remote_nonce = [];
    partial_sig = none;
    remote_partial_sig = none;
  }

  unfoldable pub initiate_musig2_swap :
      Network → Swap → Offer → PrivKey → Result CoordError (ActiveSwap l t)
  initiate_musig2_swap n s o key = do
    a ← wrap musig2_error (new_musig2_session l o.offer_chain n key)
    b ← wrap musig2_error (new_musig2_session l o.request_chain n key)
    ok (record {
      swap = s;
      musig2_data = some (record {
        local_priv_key = key;
        offer_chain = chain_musig2 a "";
        request_chain = chain_musig2 b "";
      });
      htlc_data = none;
    })

  unfoldable pub initiate_htlc_swap :
      Network → Swap → Offer → PrivKey → Option (List ℕ) → Result CoordError (ActiveSwap l t)
  initiate_htlc_swap n s o key random = do
    a ← wrap htlc_error (new_htlc_session_with_key c t o.offer_chain n (some key))
    b ← wrap htlc_error (new_htlc_session_with_key c t o.request_chain n (some key))
    a ← wrap htlc_error (generate_secret c t random a)
    b ← wrap htlc_error (set_secret_hash c t a.secret_hash b)
    ok (record {
      swap = record s { secret = a.secret; secret_hash = a.secret_hash };
      musig2_data = none;
      htlc_data = some (record {
        local_priv_key = some key;
        offer_chain = record { session = a; htlc_address = "" };
        request_chain = record { session = b; htlc_address = "" };
      });
    })

  unfoldable pub initiate_method :
      Method
      → Network
      → Swap
      → Offer
      → PrivKey
      → Option (List ℕ)
      → Result CoordError (ActiveSwap l t)
  unfolding initiate_musig2_swap initiate_htlc_swap
  initiate_method musig2 n s o key random = initiate_musig2_swap n s o key
  initiate_method htlc n s o key random = initiate_htlc_swap n s o key random
  initiate_method _ n s o key random = err unsupported_method

  -- `InitiateSwap` up to the point where the swap is stored.
  unfoldable pub start_initiator :
      Backends → Fresh → String → Offer → Method → Network → Result CoordError (ActiveSwap l t)
  unfolding initiate_method set_local_pub_key set_block_heights
  start_initiator bs f id o m n = do
    s ← wrap swap_error (new_swap n m initiator o f.id f.now)
    s ← wrap swap_error (generate_swap_secret c f.secret (record s { id = trade_id id }))
    key ← of_option random_failed f.key
    offer_height ← get_block_height bs o.offer_chain
    request_height ← get_block_height bs o.request_chain
    initiate_method m n
        (set_block_heights (set_local_pub_key c (pub_key key) s) offer_height request_height) o key
        f.htlc_secret

  -- A swap that is new is stored, and the event emitted; on an error nothing is.
  store_new :
      String
      → String
      → Coordinator l t
      → Result CoordError (ActiveSwap l t)
      → Result CoordError (ActiveSwap l t × Coordinator l t)
  store_new id event s r = elim (lookup id s.swaps) [
    | some _ ↦ err swap_exists
    | none ↦ do
      a ← r
      ok (a, record s { swaps = put l t id a s.swaps; events = (id, event) ∷ s.events })
  ]

  unfoldable pub initiate_swap :
      Backends
      → Fresh
      → String
      → Offer
      → Method
      → Coordinator l t
      → Result CoordError (ActiveSwap l t × Coordinator l t)
  unfolding store_new
  initiate_swap bs f id o m s =
      store_new id "swap_initiated" s (start_initiator bs f id o m s.network)

  unfoldable pub of_outcome : {S : Type 0} → S × Option Musig2Error → Result CoordError S
  of_outcome (s, none) = ok s
  of_outcome (s, some e) = err (musig2_error e)

  -- One chain of `respondMuSig2Swap`, from its session on.
  unfoldable pub respond_musig2_chain :
      PubKey → ℕ → Musig2Session l → Result CoordError (ChainMusig2 l t)
  respond_musig2_chain refund timeout s = do
    r ← wrap musig2_error (taproot_address_with_refund l t refund timeout s)
    a ← wrap musig2_error r.1
    ok (chain_musig2 r.0 a)

  unfoldable pub respond_musig2_swap :
      Network → Swap → Offer → PrivKey → PubKey → Result CoordError (ActiveSwap l t)
  unfolding of_outcome respond_musig2_chain
  respond_musig2_swap n s o key remote = do
    a ← wrap musig2_error (new_musig2_session l o.offer_chain n key)
    b ← wrap musig2_error (new_musig2_session l o.request_chain n key)
    a ← of_outcome (Musig2.set_remote_pub_key l (some remote) a)
    b ← of_outcome (Musig2.set_remote_pub_key l (some remote) b)
    x ← respond_musig2_chain remote (get_timeout_blocks o.offer_chain true) a
    y ← respond_musig2_chain (pub_key key) (get_timeout_blocks o.request_chain false) b
    ok (record {
      swap = s;
      musig2_data = some (record { local_priv_key = key; offer_chain = x; request_chain = y });
      htlc_data = none;
    })

  -- The address of a session that has a script.
  abbrev pub address_of : Option ScriptData → String
  address_of none = ""
  address_of (some d) = d.address

  unfoldable pub respond_htlc_chain :
      PubKey → PubKey → ℕ → HtlcSession c t → Result CoordError (ChainHtlc l t)
  respond_htlc_chain sender receiver timeout s = do
    s ← wrap htlc_error (generate_swap_address_with_roles c t sender receiver timeout s)
    ok (record { session = s; htlc_address = address_of s.htlc_data })

  unfoldable pub respond_htlc_swap :
      Network → Swap → Offer → PrivKey → PubKey → List ℕ → Result CoordError (ActiveSwap l t)
  unfolding respond_htlc_chain
  respond_htlc_swap n s o key remote hash = do
    a ← wrap htlc_error (new_htlc_session_with_key c t o.offer_chain n (some key))
    b ← wrap htlc_error (new_htlc_session_with_key c t o.request_chain n (some key))
    a ← wrap htlc_error (set_secret_hash c t hash a)
    b ← wrap htlc_error (set_secret_hash c t hash b)
    a ← wrap htlc_error (HtlcSession.set_remote_pub_key c t (some remote) a)
    b ← wrap htlc_error (HtlcSession.set_remote_pub_key c t (some remote) b)
    x ← respond_htlc_chain remote (pub_key key) (get_timeout_blocks o.offer_chain true) a
    y ← respond_htlc_chain (pub_key key) remote (get_timeout_blocks o.request_chain false) b
    ok (record {
      swap = s;
      musig2_data = none;
      htlc_data = some (record { local_priv_key = some key; offer_chain = x; request_chain = y });
    })

  unfoldable pub respond_method :
      Method
      → Network
      → Swap
      → Offer
      → PrivKey
      → PubKey
      → List ℕ
      → Result CoordError (ActiveSwap l t)
  unfolding respond_musig2_swap respond_htlc_swap
  respond_method musig2 n s o key remote hash = respond_musig2_swap n s o key remote
  respond_method htlc n s o key remote hash = respond_htlc_swap n s o key remote hash
  respond_method _ n s o key remote hash = err unsupported_method

  -- `RespondToSwap` up to the point where the swap is stored.
  unfoldable pub start_responder :
      Backends
      → Fresh
      → String
      → Offer
      → List ℕ
      → List ℕ
      → Method
      → Network
      → Result CoordError (ActiveSwap l t)
  unfolding respond_method set_local_pub_key set_block_heights
  start_responder bs f id o remote hash m n = do
    s ← wrap swap_error (new_swap n m responder o f.id f.now)
    remote_pub ← of_option bad_remote_key (parse_pub_key remote)
    s ← wrap swap_error (
        Secrets.set_remote_pub_key c (some remote_pub)
          (record s { id = trade_id id; secret_hash = hash }))
    key ← of_option random_failed f.key
    offer_height ← get_block_height bs o.offer_chain
    request_height ← get_block_height bs o.request_chain
    respond_method m n
        (set_block_heights (set_local_pub_key c (pub_key key) s) offer_height request_height) o key
        remote_pub hash

  unfoldable pub respond_to_swap :
      Backends
      → Fresh
      → String
      → Offer
      → List ℕ
      → List ℕ
      → Method
      → Coordinator l t
      → Result CoordError (ActiveSwap l t × Coordinator l t)
  unfolding store_new
  respond_to_swap bs f id o remote hash m s =
      store_new id "swap_joined" s (start_responder bs f id o remote hash m s.network)
