-- ===== src/Swap/Secrets.antt =====
-- internal/swap/swap.go: the keys and the secret that a swap records.
use klingdex.Prelude.{
  ℕ, Bool, false, ◌&&◌, not, ◌≡◌, refl, Option, none, some, List, arith, ◌==◌, length,
  if◌then◌else◌, Result, ok, err, ◌>>=◌, ◌>>◌, guard,
}
use klingdex.Helpers.Bytes.{bytes_equal}
use klingdex.Swap.HtlcScript.{of_option}
use klingdex.Swap.Crypto.{Crypto}
use klingdex.Swap.Types.{
  Swap, SwapError, only_initiator, invalid_pub_key, random_failed, is_initiator,
}

module _ (c : Crypto) where
  open c use {PubKey, serialize_compressed, parse_pub_key, sha256}

  unfoldable pub set_local_pub_key : PubKey → Swap → Swap
  set_local_pub_key k s = record s { local_pub_key = serialize_compressed k }

  -- `none` is a nil key.
  unfoldable pub set_remote_pub_key : Option PubKey → Swap → Result SwapError Swap
  set_remote_pub_key none s = err invalid_pub_key
  set_remote_pub_key (some k) s = ok (record s { remote_pub_key = serialize_compressed k })

  parse_key : List ℕ → Result SwapError PubKey
  parse_key b = do
    guard (not (length b == 0)) invalid_pub_key
    of_option invalid_pub_key (parse_pub_key b)

  unfoldable pub get_local_pub_key : Swap → Result SwapError PubKey
  unfolding parse_key
  get_local_pub_key s = parse_key s.local_pub_key

  unfoldable pub get_remote_pub_key : Swap → Result SwapError PubKey
  unfolding parse_key
  get_remote_pub_key s = parse_key s.remote_pub_key

  -- `random` is what `rand.Read` gave.
  unfoldable pub generate_swap_secret : Option (List ℕ) → Swap → Result SwapError Swap
  generate_swap_secret random s = do
    guard (is_initiator s.role) only_initiator
    b ← of_option random_failed random
    ok (record s { secret = b; secret_hash = sha256 b })

  -- The comparison byte by byte, after the one of the lengths.
  unfoldable pub verify_swap_secret : Swap → List ℕ → Bool
  verify_swap_secret s secret =
      if length s.secret_hash == 0
      then false
      else (length (sha256 secret) == length s.secret_hash)
        && bytes_equal (sha256 secret) s.secret_hash

  -- The key that was set is the key that is read.
  pub get-set_pub_key :
      (k r : PubKey) (s : Swap)
      → (get_local_pub_key (set_local_pub_key k s) ≡ ok k)
        × (s' : Swap) × (set_remote_pub_key (some r) s ≡ ok s')
        × (get_remote_pub_key s' ≡ ok r)
  unfolding get_local_pub_key get_remote_pub_key set_local_pub_key set_remote_pub_key
  get-set_pub_key k r s =
      let hk = (c.serialize_compressed_bytes k).0 in
      let hr = (c.serialize_compressed_bytes r).0 in
      (
        rw (hk, c.parse-serialize_compressed k) refl,
        record s { remote_pub_key = serialize_compressed r },
        refl,
        rw (hr, c.parse-serialize_compressed r) refl,
      )

  pub generate_swap_secret-Keeps :
      (random : Option (List ℕ)) (s : Swap) {x : Swap}
      → generate_swap_secret random s ≡ ok x
      → (x.role ≡ s.role) × (x.method ≡ s.method) × (x.offer ≡ s.offer)
  unfolding generate_swap_secret
  generate_swap_secret-Keeps random s h = ground arith
