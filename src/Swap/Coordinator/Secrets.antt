-- ===== src/Swap/Coordinator/Secrets.antt =====
-- internal/swap/coordinator_complete.go: the secret of a swap and its hash.
use klingdex.Prelude.{
  ℕ, ◌||◌, Option, none, some, List, ◌==◌, length, Result, ok, err, if◌then◌else◌,
}
use klingdex.Helpers.Bytes.{bytes_equal}
use klingdex.Swap.Crypto.{Crypto}
use klingdex.Swap.Txscript.{Txscript}
use klingdex.Swap.Musig2Lib.{Musig2Lib}
use klingdex.Swap.HtlcSession.{HtlcSession, SessionError, set_secret_hash, set_secret}
use klingdex.Swap.Types.{is_initiator}
use klingdex.Swap.Coordinator.{
  CoordError, htlc_error, bad_length, only_initiator, secret_mismatch, ChainHtlc, HtlcData,
  ActiveSwap, Reply, announce, proceed, when,
}

module _ {c : Crypto} (l : Musig2Lib c) (t : Txscript) where
  open c use {sha256}

  unfoldable pub get_secret_hash : ActiveSwap l t → List ℕ
  get_secret_hash a = a.swap.secret_hash

  unfoldable pub reveal_secret : ActiveSwap l t → Result CoordError (List ℕ)
  reveal_secret a = if is_initiator a.swap.role then ok a.swap.secret else err only_initiator

  -- The session that a call leaves, and whether it failed.
  unfoldable pub attempt :
      ChainHtlc l t
      → Result SessionError (HtlcSession c t)
      → ChainHtlc l t × Result CoordError (Unit {0})
  attempt x (ok s) = (record x { session = s }, ok tt)
  attempt x (err e) = (x, err (htlc_error e))

  abbrev pub with_htlc_chains :
      ActiveSwap l t → HtlcData l t → ChainHtlc l t → ChainHtlc l t → ActiveSwap l t
  with_htlc_chains a d x y = record a {
    htlc_data = some (record d { offer_chain = x; request_chain = y });
  }

  unfoldable pub hash_sessions :
      List ℕ → ActiveSwap l t → Option (HtlcData l t) → Reply l t (Unit {0})
  unfolding attempt
  hash_sessions hash a none = announce l t "secret_hash_received" a tt
  hash_sessions hash a (some d) =
      let x = attempt d.offer_chain (set_secret_hash c t hash d.offer_chain.session) in
      let y = attempt d.request_chain (set_secret_hash c t hash d.request_chain.session) in
      proceed l t (with_htlc_chains a d x.0 d.request_chain) x.1 (λ _.
        proceed l t (with_htlc_chains a d x.0 y.0) y.1
          (λ _. announce l t "secret_hash_received" (with_htlc_chains a d x.0 y.0) tt))

  -- The hash is written to the swap before the sessions are asked.
  unfoldable pub set_remote_secret_hash : List ℕ → ActiveSwap l t → Reply l t (Unit {0})
  unfolding hash_sessions
  set_remote_secret_hash hash a =
      when l t (length hash == 32) a bad_length
        (hash_sessions hash (record a { swap = record a.swap { secret_hash = hash } }) a.htlc_data)

  -- An error of a session is only logged.
  unfoldable pub secret_sessions : List ℕ → ActiveSwap l t → Option (HtlcData l t) → ActiveSwap l t
  unfolding attempt
  secret_sessions secret a none = a
  secret_sessions secret a (some d) =
      with_htlc_chains a d (attempt d.offer_chain (set_secret c t secret d.offer_chain.session)).0
        (attempt d.request_chain (set_secret c t secret d.request_chain.session)).0

  unfoldable pub set_revealed_secret : List ℕ → ActiveSwap l t → Reply l t (Unit {0})
  unfolding secret_sessions
  set_revealed_secret secret a = when l t (length secret == 32) a bad_length (
      when l t (length a.swap.secret_hash == 0 || bytes_equal (sha256 secret) a.swap.secret_hash) a
        secret_mismatch
        (announce l t "secret_revealed"
          (secret_sessions secret (record a { swap = record a.swap { secret = secret } })
            a.htlc_data)
          tt))
