-- ===== src/Swap/Crypto.antt =====
-- Keys, hashes, randomness and addresses that internal/swap takes from btcec, btcutil and Go's
-- crypto packages: an interface, with what the session code relies on.
pub mod Constant
use klingdex.Prelude.{ℕ, String, Bool, ◌≡◌, Option, some, List, [], length, All}
use klingdex.Chain.{Params}
use klingdex.Swap.Txscript.{IsByte}

pub record Crypto : Type 1 where
  pub PrivKey : Type 0
  pub PubKey : Type 0
  pub pub_key : PrivKey → PubKey
  pub serialize_compressed : PubKey → List ℕ
  pub sha256 : List ℕ → List ℕ
  -- The P2WSH address of a script hash under a chain's parameters.
  pub witness_address : Params → List ℕ → Option String
  -- `ParsePubKey`; `none` is its error.
  pub parse_pub_key : List ℕ → Option PubKey
  -- `schnorr.SerializePubKey`, and txscript's output key, leaf hash and control block of a tree
  -- with one leaf.
  pub x_only : PubKey → List ℕ
  pub output_key : PubKey → List ℕ → PubKey
  pub tap_hash : List ℕ → List ℕ
  pub control_block : List ℕ → PubKey → Option (List ℕ)
  pub serialize_compressed_bytes :
      (k : PubKey) → (length (serialize_compressed k) ≡ 33) × All IsByte (serialize_compressed k)
  pub parse-serialize_compressed : (k : PubKey) → parse_pub_key (serialize_compressed k) ≡ some k
  pub x_only_bytes : (k : PubKey) → (length (x_only k) ≡ 32) × All IsByte (x_only k)
  pub sha256_bytes : (b : List ℕ) → (length (sha256 b) ≡ 32) × All IsByte (sha256 b)
