-- ===== src/Swap/Musig2Lib/Constant.antt =====
-- An instance of the interface to MuSig2 over numbers. It shows that the interface's laws can hold.
use mathlib.Core.Option.{some-injective}
use klingdex.Prelude.{ℕ, true, refl, sym, ap, some, [], ◌∷◌}
use klingdex.Swap.Crypto.Constant.{constant_crypto}
use klingdex.Swap.Musig2Lib.{Musig2Lib}

-- A nonce is a number, and a session the number that it signs with.
abbrev pub numbers : Musig2Lib constant_crypto
numbers = record {
  AggregateKey = ℕ;
  Nonces = ℕ;
  Context = Unit {0};
  LibSession = ℕ;
  Signature = ℕ;
  FinalSignature = ℕ;
  aggregate_keys = λ ks. some 0;
  final_key = λ a. true;
  read_signature = λ b. some 7;
  combine = λ s g. some 0;
  pub_nonce = λ n. n ∷ [];
  new_context = λ k ks r. some tt;
  new_session = λ c n. some n;
  register_pub_nonce = λ s n. some s;
  sign = λ s m. some (7, s);
  nonce_of = λ s. s ∷ [];
  new_session-nonce_of = λ c n e. ap (λ k. k ∷ []) (sym (some-injective n _ e));
  register_pub_nonce-nonce_of = λ s n e. ap (λ k. k ∷ []) (sym (some-injective s _ e));
  sign-nonce_of = λ s m e. ap (λ k. k.1 ∷ []) (sym (some-injective (7, s) _ e));
  aggregate_keys_comm = λ a b. refl;
}
