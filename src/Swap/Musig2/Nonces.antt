-- ===== src/Swap/Musig2/Nonces.antt =====
-- No nonce signs twice, and the one way around the tests of internal/swap/musig2.go.
mod Tests
use mathlib.Core.Option.{some-injective}
use klingdex.Chain.{Network}
use klingdex.Prelude.{
  ℕ, String, Bool, true, false, ◌≡◌, refl, sym, ap, ◌∙◌, ◌||◌, Option, none, some, List, [], ◌∷◌,
  ◌++◌, arith, Result, ok, err, ◌>>=◌, inl, inr, ◌⊎◌, Bool-cases, Result-cases, Option-cases,
  if◌then◌else◌, All, not,
}
use klingdex.Helpers.Bytes.{bytes_equal, bytes_equal_sound, bytes_equal_refl}
use klingdex.Swap.Musig2Lib.{Musig2Lib}
use klingdex.Swap.Crypto.{Crypto}
use klingdex.Swap.Musig2.{
  Musig2Session, Musig2Error, contains_nonce, mark_used, set_remote_pub_key, generate_nonces,
  set_remote_nonce, init_signing_session, sign_message, sign_guards, mark_previous, clear_session,
  reset_for_new_sign, new_musig2_session, start_session, is_some, local_is_used, sorted_keys,
  tweak_root,
}
use klingdex.Swap.Musig2.Trace.{
  Call, remote_key, generate, remote_nonce, start, sign_with, reset, Traced, logged, after_sign,
  step, run, IsCareful, AllCareful, IsBound, IsSafe, IsDistinct, IsUsed, contains-mark,
  contains-mark_old, contains-of_used, All-IsUsed_mark,
}
use klingdex.Swap.Musig2.Steps.{run-IsSafe}

module _ {c : Crypto} (l : Musig2Lib c) where
  open c use {PrivKey, PubKey, pub_key, serialize_compressed}
  open l use {
    Nonces, Context, LibSession, Signature, pub_nonce, sign, nonce_of, new_session,
    new_session-nonce_of, new_context, register_pub_nonce, register_pub_nonce-nonce_of,
    sign-nonce_of,
  }

  -- From a new session, under any calls among which `GenerateNonces` itself is called only where
  -- there is no signing session, no nonce signs twice.
  pub run-IsDistinct :
      (symbol : String) (n : Network) (key : PrivKey) {s : Musig2Session l} (xs : List (Call l))
      → new_musig2_session l symbol n key ≡ ok s
      → AllCareful l (s, []) xs
      → IsDistinct (run l (s, []) xs).1
  unfolding new_musig2_session
  run-IsDistinct symbol n key {s} xs new careful =
      let none_yet : s.session ≡ none = ground arith in
      (run-IsSafe l (s, []) xs careful (tt, tt, λ x e. absurd (cc (rw none_yet at e)))).1

  generate-fresh :
      (s : Musig2Session l) (n : Nonces)
      → (generate_nonces l (some n) s).1 ≡ none
      → contains_nonce (mark_previous l s.local_nonces s.used_nonces) (pub_nonce n) ≡ false
  unfolding generate_nonces
  generate-fresh s n fine = ground arith

  -- Where a signing session is left over from nonces that have signed already, `GenerateNonces`
  -- with fresh nonces followed by `Sign` passes every test, and signs with the old nonce again.
  pub generate-unlocks :
      (s : Musig2Session l) (log : List (List ℕ)) (n : Nonces) (m : List ℕ) (x x' : LibSession)
      {g : Signature}
      → s.session ≡ some x
      → sign x m ≡ some (g, x')
      → (generate_nonces l (some n) s).1 ≡ none
      → contains_nonce log (nonce_of x) ≡ true
      → ¬ IsDistinct (run l (s, log) (generate (some n) ∷ sign_with m ∷ [])).1
  unfolding run step generate_nonces sign_message after_sign logged
  generate-unlocks s log n m x x' session signed fine used = rw (generate-fresh s n fine) (
      rw (sign_message, sign_guards, local_is_used, generate-fresh s n fine, session)
        (rw (after_sign, signed) (λ d. cc (d.0, used))))
