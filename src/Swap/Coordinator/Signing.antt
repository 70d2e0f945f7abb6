-- ===== src/Swap/Coordinator/Signing.antt =====
-- internal/swap/coordinator_nonces.go and coordinator_signing.go: the MuSig2 rounds of a swap. A
-- final signature is not serialized here, and neither is a partial one.
use klingdex.Prelude.{ℕ, String, ◌&&◌, Option, none, some, List, ◌==◌, length, Result, ok, err}
use klingdex.Swap.HtlcScript.{of_option}
use klingdex.Swap.Crypto.{Crypto}
use klingdex.Swap.Txscript.{Txscript}
use klingdex.Swap.Musig2Lib.{Musig2Lib}
use klingdex.Swap.Musig2
use klingdex.Swap.Musig2.{
  Musig2Session, Musig2Error, set_remote_nonce, init_signing_session, sign_message,
}
use klingdex.Swap.Musig2.Address.{local_pub_nonce, combine_signatures}
use klingdex.Swap.Types.{funded, SwapError}
use klingdex.Swap.State.{state_eq}
use klingdex.Swap.Heights.{swap_is_safe_to_complete}
use klingdex.Swap.Coordinator.{
  CoordError, nil_pointer, not_ready_to_sign, bad_length, unknown_chain, no_signature,
  scalar_overflow, swap_error, musig2_error, Backends, get_block_height, or_zero, ChainMusig2,
  Musig2Data, ActiveSwap, Reply, fail, done, announce, proceed, when, wrap,
}
use klingdex.Swap.Coordinator.Keys.{get_chain_data, with_chains}

abbrev pub of_error : Option SwapError → Result CoordError (Unit {0})
of_error none = ok tt
of_error (some e) = err (swap_error e)

module _ {c : Crypto} (l : Musig2Lib c) (t : Txscript) where
  open l use {Nonces, Signature, FinalSignature, read_signature}

  -- The data of a MuSig2 swap; Go would stop where it is nil.
  abbrev pub with_musig2 :
      {A : Type 0} → ActiveSwap l t → (Musig2Data l t → Reply l t A) → Reply l t A
  with_musig2 a next = elim a.musig2_data [ none ↦ fail l t a nil_pointer | some d ↦ next d ]

  -- A chain's new nonces and the public one.
  unfoldable pub read_nonce :
      ChainMusig2 l t
      → Musig2Session l × Option Musig2Error
      → ChainMusig2 l t × Result CoordError (List ℕ)
  read_nonce x (s, some e) = (record x { session = s }, err (musig2_error e))
  read_nonce x (s, none) = elim (local_pub_nonce l s) [
    | err e ↦ (record x { session = s }, err (musig2_error e))
    | ok n ↦ (record x { session = s; local_nonce = n }, ok n)
  ]

  unfoldable pub generate_chain_nonces :
      Option Nonces → ChainMusig2 l t → ChainMusig2 l t × Result CoordError (List ℕ)
  unfolding read_nonce
  generate_chain_nonces random x = read_nonce x (Musig2.generate_nonces l random x.session)

  -- `random` is what `GenNonces` gave for each chain.
  unfoldable pub generate_nonces :
      Option Nonces → Option Nonces → ActiveSwap l t → Reply l t (List ℕ × List ℕ)
  unfolding generate_chain_nonces
  generate_nonces random random' a = with_musig2 a (λ d.
      let x = generate_chain_nonces random d.offer_chain in
      let y = generate_chain_nonces random' d.request_chain in
      proceed l t (with_chains l t a d x.0 d.request_chain) x.1 (λ n.
        proceed l t (with_chains l t a d x.0 y.0) y.1
          (λ m. done l t (with_chains l t a d x.0 y.0) (n, m))))

  abbrev pub receive_nonce : List ℕ → ChainMusig2 l t → ChainMusig2 l t
  receive_nonce n x = record x { session = set_remote_nonce l n x.session; remote_nonce = n }

  unfoldable pub set_remote_nonces : List ℕ → List ℕ → ActiveSwap l t → Reply l t (Unit {0})
  set_remote_nonces n m a = when l t (length n == 66) a bad_length (
      when l t (length m == 66) a bad_length (
        with_musig2 a (λ d.
          announce l t "nonces_exchanged"
            (with_chains l t a d (receive_nonce n d.offer_chain) (receive_nonce m d.request_chain))
            tt)))

  unfoldable pub store_signature :
      ChainMusig2 l t
      → Result Musig2Error (Signature × Musig2Session l)
      → ChainMusig2 l t × Result CoordError Signature
  store_signature x (err e) = (x, err (musig2_error e))
  store_signature x (ok (g, s)) = (record x { session = s; partial_sig = some g }, ok g)

  unfoldable pub start_chain :
      List ℕ
      → ChainMusig2 l t
      → Musig2Session l × Option Musig2Error
      → ChainMusig2 l t × Result CoordError Signature
  unfolding store_signature
  start_chain h x (s, some e) = (record x { session = s }, err (musig2_error e))
  start_chain h x (s, none) = store_signature (record x { session = s }) (sign_message l h s)

  -- One chain of `CreatePartialSignatures`: the signing session is always made anew.
  unfoldable pub sign_chain :
      List ℕ → ChainMusig2 l t → ChainMusig2 l t × Result CoordError Signature
  unfolding start_chain
  sign_chain h x = start_chain h x (init_signing_session l x.session)

  -- From the checks on.
  unfoldable pub sign_both : List ℕ → List ℕ → ActiveSwap l t → Reply l t (Signature × Signature)
  sign_both h h' a = with_musig2 a (λ d.
      let x = sign_chain h d.offer_chain in
      let y = sign_chain h' d.request_chain in
      proceed l t (with_chains l t a d x.0 d.request_chain) x.1 (λ g.
        proceed l t (with_chains l t a d x.0 y.0) y.1
          (λ g'. announce l t "partial_sigs_created" (with_chains l t a d x.0 y.0) (g, g'))))

  -- A height that the backend does not tell counts as 0.
  unfoldable pub create_partial_signatures :
      Backends → List ℕ → List ℕ → ActiveSwap l t → Reply l t (Signature × Signature)
  create_partial_signatures bs h h' a =
      when l t (state_eq a.swap.state funded) a not_ready_to_sign (
        proceed l t a
          (of_error (
            swap_is_safe_to_complete a.swap (or_zero (get_block_height bs a.swap.offer.offer_chain))
              (or_zero (get_block_height bs a.swap.offer.request_chain))))
          (λ _. when l t (length h == 32 && length h' == 32) a bad_length (sign_both h h' a)))

  combine_chain : List ℕ → ActiveSwap l t → Option (ChainMusig2 l t) → Reply l t FinalSignature
  combine_chain remote a none = fail l t a unknown_chain
  combine_chain remote a (some x) = proceed l t a (of_option no_signature x.partial_sig) (λ own.
      when l t (length remote == 32) a bad_length (
        proceed l t a (of_option scalar_overflow (read_signature remote)) (λ other.
          proceed l t a (wrap musig2_error (combine_signatures l own other x.session))
            (λ g. announce l t "signatures_combined" a g))))

  unfoldable pub combine_chain_signatures :
      String → List ℕ → ActiveSwap l t → Reply l t FinalSignature
  unfolding combine_chain
  combine_chain_signatures symbol remote a =
      with_musig2 a (λ d. combine_chain remote a (get_chain_data l t a d symbol))

  -- The first signature is stored before the second is read.
  unfoldable pub set_remote_partial_sigs : List ℕ → List ℕ → ActiveSwap l t → Reply l t (Unit {0})
  set_remote_partial_sigs b b' a = when l t (length b == 32 && length b' == 32) a bad_length (
      proceed l t a (of_option scalar_overflow (read_signature b)) (λ g. with_musig2 a (λ d.
        let x = record d.offer_chain { remote_partial_sig = some g } in
        let a' = with_chains l t a d x d.request_chain in
        proceed l t a' (of_option scalar_overflow (read_signature b')) (λ g'.
          announce l t "remote_partial_sigs_received"
            (with_chains l t a d x (record d.request_chain { remote_partial_sig = some g' })) tt))))

  remote_sig_of : Option (ChainMusig2 l t) → Result CoordError Signature
  remote_sig_of none = err unknown_chain
  remote_sig_of (some x) = of_option no_signature x.remote_partial_sig

  unfoldable pub get_remote_partial_sig : String → ActiveSwap l t → Result CoordError Signature
  unfolding remote_sig_of
  get_remote_partial_sig symbol a = elim a.musig2_data [
    | none ↦ err nil_pointer
    | some d ↦ remote_sig_of (get_chain_data l t a d symbol)
  ]

  unfoldable pub set_remote_wallet_addresses :
      String → String → ActiveSwap l t → Reply l t (Unit {0})
  set_remote_wallet_addresses offer request a =
      done l t
        (record a {
          swap = record a.swap {
            remote_offer_wallet_addr = offer;
            remote_request_wallet_addr = request;
          };
        })
        tt
