-- ===== src/Swap/Coordinator/HashMismatch.antt =====
-- The hash that a swap records and the hashes of its two sessions.
use klingdex.Prelude.{ℕ, ◌≡◌, ◌≢◌, some, List, err, arith, length, ◌<◌}
use klingdex.Helpers.Bytes.{bytes_equal_sound}
use klingdex.Swap.Crypto.{Crypto}
use klingdex.Swap.Txscript.{Txscript}
use klingdex.Swap.Musig2Lib.{Musig2Lib}
use klingdex.Swap.HtlcSession.{hash_exists, set_secret_hash}
use klingdex.Swap.Coordinator.{htlc_error, secret_mismatch, HtlcData, ActiveSwap}
use klingdex.Swap.Coordinator.Secrets.{
  set_remote_secret_hash, set_revealed_secret, attempt, hash_sessions,
}

module _ {c : Crypto} (l : Musig2Lib c) (t : Txscript) where
  open c use {sha256}

  -- Where the session of the offer chain has a hash already, `SetRemoteSecretHash` with 32 bytes
  -- fails, but leaves them as the swap's hash and both sessions as they were. A secret whose hash
  -- is another is then refused by `SetRevealedSecret`, the one of the sessions' hash included.
  pub hash_overwritten :
      (a : ActiveSwap l t) (d : HtlcData l t) (hash secret : List ℕ)
      → a.htlc_data ≡ some d
      → 0 < length d.offer_chain.session.secret_hash
      → length hash ≡ 32
      → length secret ≡ 32
      → sha256 secret ≢ hash
      → let r = set_remote_secret_hash l t hash a in
        (r.result ≡ err (htlc_error hash_exists))
        × (r.active.swap.secret_hash ≡ hash)
        × (r.active.htlc_data ≡ some d)
        × ((set_revealed_secret l t secret r.active).result ≡ err secret_mismatch)
  unfolding set_remote_secret_hash set_revealed_secret hash_sessions attempt set_secret_hash
  hash_overwritten a d hash secret ed hd hh hs ne =
      let bad = bytes_equal_sound (sha256 secret) hash in
      rw (hh, hs, ed) (ground arith, ground arith, ground arith, ground (arith, bad))
