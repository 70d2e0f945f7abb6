-- ===== src/Swap/Musig2Lib.antt =====
-- btcd's musig2 package and the keys that internal/swap/musig2.go takes from btcec: an interface,
-- with what that file relies on. `none` is an error of the call.
pub mod Constant
use klingdex.Prelude.{ℕ, ◌≡◌, Option, some, List, [], ◌∷◌}
use klingdex.Swap.Crypto.{Crypto}

pub record Musig2Lib (c : Crypto) : Type 1 where
  pub AggregateKey : Type 0
  pub Nonces : Type 0
  pub Context : Type 0
  pub LibSession : Type 0
  pub Signature : Type 0
  pub FinalSignature : Type 0
  -- `AggregateKeys` with sorting, and the field `FinalKey`.
  pub aggregate_keys : List c.PubKey → Option AggregateKey
  pub final_key : AggregateKey → c.PubKey
  -- The scalar of a partial signature from 32 bytes; `none` is its overflow.
  pub read_signature : List ℕ → Option Signature
  pub combine : LibSession → Signature → Option FinalSignature
  -- The field `PubNonce`.
  pub pub_nonce : Nonces → List ℕ
  -- `NewContext` with the known signers and, where there is one, the root of the script tree.
  pub new_context : c.PrivKey → List c.PubKey → Option (List ℕ) → Option Context
  -- `NewSession` with nonces generated before.
  pub new_session : Context → Nonces → Option LibSession
  pub register_pub_nonce : LibSession → List ℕ → Option LibSession
  pub sign : LibSession → List ℕ → Option (Signature × LibSession)
  -- The public half of the nonces that a session signs with.
  pub nonce_of : LibSession → List ℕ
  pub new_session-nonce_of :
      (x : Context) (n : Nonces) {s : LibSession}
      → new_session x n ≡ some s
      → nonce_of s ≡ pub_nonce n
  pub register_pub_nonce-nonce_of :
      (s : LibSession) (n : List ℕ) {s' : LibSession}
      → register_pub_nonce s n ≡ some s'
      → nonce_of s' ≡ nonce_of s
  pub sign-nonce_of :
      (s : LibSession) (m : List ℕ) {g : Signature} {s' : LibSession}
      → sign s m ≡ some (g, s')
      → nonce_of s' ≡ nonce_of s
  -- The keys are sorted first, so their order does not matter.
  pub aggregate_keys_comm :
      (a b : c.PubKey) → aggregate_keys (a ∷ b ∷ []) ≡ aggregate_keys (b ∷ a ∷ [])
