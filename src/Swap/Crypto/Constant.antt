-- ===== src/Swap/Crypto/Constant.antt =====
-- An instance of the interface to keys, hashes and addresses: there are two keys, and everything
-- has the right length. It shows that the interface's laws can hold.
use klingdex.Prelude.{
  ℕ, zero, suc, Bool, true, false, ◌%◌, ◌≡◌, refl, Option, none, some, List, [], ◌∷◌, ◌<◌, arith,
  ◌==◌, length, length-replicate, replicate, All,
}
use klingdex.Swap.Txscript.{IsByte}
use klingdex.Swap.Crypto.{Crypto}

pub All-replicate : (n b : ℕ) → b < 256 → All IsByte (replicate n b)
All-replicate zero b h = tt
All-replicate (suc n) b h = (h, All-replicate n b h)

-- The first byte of a key, and its reading.
abbrev pub sign_byte : Bool → ℕ
sign_byte true = 3
sign_byte false = 2

abbrev pub read_key : List ℕ → Option Bool
read_key [] = none
read_key (b ∷ bs) = some (b == 3)

pub sign_bytes :
    (k : Bool)
    → (length (replicate 33 (sign_byte k)) ≡ 33) × All IsByte (replicate 33 (sign_byte k))
sign_bytes true = (refl, All-replicate 33 3 (omega arith))
sign_bytes false = (refl, All-replicate 33 2 (omega arith))

pub read-sign : (k : Bool) → read_key (replicate 33 (sign_byte k)) ≡ some k
read-sign true = refl
read-sign false = refl

abbrev pub constant_crypto : Crypto
constant_crypto = record {
  PrivKey = Bool;
  PubKey = Bool;
  pub_key = λ k. k;
  serialize_compressed = λ k. replicate 33 (sign_byte k);
  sha256 = λ b. replicate 32 (length b % 256);
  witness_address = λ p h. some "bc1q";
  parse_pub_key = read_key;
  x_only = λ k. replicate 32 1;
  output_key = λ k r. k;
  tap_hash = λ s. 1 ∷ [];
  control_block = λ s k. some (192 ∷ []);
  serialize_compressed_bytes = sign_bytes;
  parse-serialize_compressed = read-sign;
  x_only_bytes = λ k. (length-replicate {A = ℕ} 32 1, All-replicate 32 1 (omega arith));
  sha256_bytes =
      λ b. (length-replicate 32 (length b % 256), All-replicate 32 (length b % 256) (omega arith));
}
