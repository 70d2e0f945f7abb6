-- ===== src/Swap/Musig2/Steps.antt =====
-- Each method of a MuSig2 session keeps it safe: what it has signed with is marked as used.
use mathlib.Core.Option.{some-injective}
use klingdex.Prelude.{
  ℕ, true, false, ◌≡◌, refl, sym, ap, ◌∙◌, Option, none, some, List, [], ◌∷◌, arith, ok, inl, inr,
  ◌⊎◌, Bool-cases, Result-cases, Option-cases, All,
}
use klingdex.Swap.Musig2Lib.{Musig2Lib}
use klingdex.Swap.Crypto.{Crypto}
use klingdex.Swap.Musig2.{
  Musig2Session, Musig2Error, contains_nonce, set_remote_pub_key, generate_nonces, set_remote_nonce,
  init_signing_session, sign_message, sign_guards, mark_previous, clear_session, reset_for_new_sign,
  start_session, is_some, local_is_used, sorted_keys, tweak_root,
}
use klingdex.Swap.Musig2.Trace.{
  Call, remote_key, generate, remote_nonce, start, sign_with, reset, Traced, logged, after_sign,
  step, run, IsCareful, AllCareful, IsBound, IsSafe, IsDistinct, IsUsed, contains-mark,
  contains-of_used, All-IsUsed_mark,
}

module _ {c : Crypto} (l : Musig2Lib c) where
  open c use {PrivKey, PubKey, pub_key, serialize_compressed}
  open l use {
    Nonces, Context, LibSession, Signature, pub_nonce, sign, nonce_of, new_session,
    new_session-nonce_of, new_context, register_pub_nonce, register_pub_nonce-nonce_of,
    sign-nonce_of,
  }

  -- What the tests of `Sign` and the signing session read is the same in both.
  abbrev SameNonces : Musig2Session l → Musig2Session l → Type 0
  SameNonces s s' =
      (s'.used_nonces ≡ s.used_nonces)
      × (s'.local_nonces ≡ s.local_nonces)
      × (s'.session ≡ s.session)

  SameNonces-IsSafe :
      (s s' : Musig2Session l) (log : List (List ℕ))
      → SameNonces s s'
      → IsSafe l (s, log)
      → IsSafe l (s', log)
  SameNonces-IsSafe s s' log (used, local, session) (a, b, c) =
      (rw used a, b, λ x e. let (n, f, g) = c x (rw session at e) in (n, rw local f, g))

  remote_key-same :
      (k : Option PubKey) (s : Musig2Session l) → SameNonces s (set_remote_pub_key l k s).0
  unfolding set_remote_pub_key
  remote_key-same k s = (ground arith, ground arith, ground arith)

  remote_nonce-same : (n : List ℕ) (s : Musig2Session l) → SameNonces s (set_remote_nonce l n s)
  unfolding set_remote_nonce
  remote_nonce-same n s = (refl, refl, refl)

  All-IsUsed_previous :
      (n : Option Nonces) (used log : List (List ℕ))
      → All (IsUsed used) log
      → All (IsUsed (mark_previous l n used)) log
  unfolding mark_previous
  All-IsUsed_previous none used log h = h
  All-IsUsed_previous (some n) used log h = All-IsUsed_mark (pub_nonce n) used log h

  generate-session :
      (r : Option Nonces) (s : Musig2Session l)
      → ((generate_nonces l r s).0.session ≡ s.session)
        × ((generate_nonces l r s).0.used_nonces ≡ mark_previous l s.local_nonces s.used_nonces)
        × ((generate_nonces l r s).1 ≡ none
            ⊎ ((generate_nonces l r s).0.local_nonces ≡ s.local_nonces))
  unfolding generate_nonces
  generate-session r s = (ground arith, ground arith, ground arith)

  generate-IsSafe :
      (r : Option Nonces) (s : Musig2Session l) (log : List (List ℕ))
      → s.session ≡ none
      → IsSafe l (s, log)
      → IsSafe l ((generate_nonces l r s).0, log)
  generate-IsSafe r s log h (a, b, c) =
      let (session, used, _) = generate-session r s in
      (
        rw used (All-IsUsed_previous s.local_nonces s.used_nonces log a),
        b,
        λ x e. absurd (cc (rw (session, h) at e)),
      )

  clear-IsSafe :
      (o : Musig2Session l × Option Musig2Error) (log : List (List ℕ))
      → All (IsUsed o.0.used_nonces) log
      → IsDistinct log
      → (o.1 ≡ none ⊎ IsBound l o.0)
      → IsSafe l ((clear_session l o).0, log)
  unfolding clear_session
  clear-IsSafe (s, none) log a b c = (a, b, λ x e. absurd (cc e))
  clear-IsSafe (s, some e) log a b (inl bad) = absurd (cc bad)
  clear-IsSafe (s, some e) log a b (inr c) = (a, b, c)

  reset-IsSafe :
      (r : Option Nonces) (s : Musig2Session l) (log : List (List ℕ))
      → IsSafe l (s, log)
      → IsSafe l ((reset_for_new_sign l r s).0, log)
  unfolding reset_for_new_sign
  reset-IsSafe r s log (a, b, c) =
      let (session, used, local) = generate-session r s in
      clear-IsSafe (generate_nonces l r s) log
        (rw used (All-IsUsed_previous s.local_nonces s.used_nonces log a)) b
        (elim local [
          | inl fine ↦ inl fine
          | inr kept ↦ inr (λ x e. let (n, f, g) = c x (rw session at e) in (n, rw kept f, g))
        ])

  start_session-IsSafe :
      (n : Nonces) (d : Context) (s : Musig2Session l) (log : List (List ℕ))
      → s.local_nonces ≡ some n
      → IsSafe l (s, log)
      → IsSafe l ((start_session l n d s).0, log)
  unfolding start_session
  start_session-IsSafe n d s log local (a, b, c) = elim (Option-cases (new_session d n)) [
    | inl none_made ↦ rw (start_session, none_made) (a, b, c)
    | inr (x, made) ↦ elim (Option-cases (register_pub_nonce x s.remote_nonces)) [
      | inl refused ↦ rw (start_session, made, refused) (a, b, c)
      | inr (y, registered) ↦
          rw (start_session, made, registered)
            (
              a,
              b,
              λ z e. (
                n,
                local,
                ap nonce_of (sym (some-injective y z e))
                    ∙ (register_pub_nonce-nonce_of x s.remote_nonces registered
                        ∙ new_session-nonce_of d n made),
              ),
            )
    ]
  ]

  -- Either an early return, or the session is started with the local nonces.
  init_signing_session-cases :
      (s : Musig2Session l)
      → ((init_signing_session l s).0 ≡ s)
        ⊎ ((n : Nonces) × (d : Context) × (s.local_nonces ≡ some n)
            × (init_signing_session l s ≡ start_session l n d s))
  unfolding init_signing_session
  init_signing_session-cases s = elim (Option-cases s.local_nonces) [
    | inl e ↦ rw e (inl refl)
    | inr (n, e) ↦ elim (Option-cases s.remote_pub_key) [
      | inl f ↦ inl (ground arith)
      | inr (r, f) ↦
          elim (Option-cases (
            new_context s.local_priv_key (sorted_keys l s.local_pub_key r)
              (tweak_root l s.script_tree))) [
                | inl g ↦ inl (ground arith)
                | inr (d, g) ↦ elim (Bool-cases s.has_remote_nonce) [
                  | inr h ↦ inl (ground arith)
                  | inl h ↦ elim (Bool-cases (is_some s.aggregated_key)) [
                    | inr k ↦ inl (ground arith)
                    | inl k ↦ inr (n, d, e, ground arith)
                  ]
                ]
              ]
    ]
  ]

  start-IsSafe :
      (s : Musig2Session l) (log : List (List ℕ))
      → IsSafe l (s, log)
      → IsSafe l ((init_signing_session l s).0, log)
  start-IsSafe s log safe = elim (init_signing_session-cases s) [
    | inl same ↦ rw same safe
    | inr (n, d, local, started) ↦ rw started (start_session-IsSafe n d s log local safe)
  ]

  sign_guards-ok :
      (s : Musig2Session l) (x : LibSession)
      → sign_guards l s ≡ ok x
      → (s.session ≡ some x)
        × (s.invalidated ≡ false)
        × (local_is_used l s.local_nonces s.used_nonces ≡ false)
  unfolding sign_guards
  sign_guards-ok s x e = (ground arith, ground arith, ground arith)

  -- A signature: the nonce joins the log and the used ones together.
  signed-IsSafe :
      (s : Musig2Session l) (x x' : LibSession) (m : List ℕ) {g : Signature} (log : List (List ℕ))
      → sign_guards l s ≡ ok x
      → sign x m ≡ some (g, x')
      → IsSafe l (s, log)
      → IsSafe l (
        record s {
          session = some x';
          nonce_used = true;
          used_nonces = mark_previous l s.local_nonces s.used_nonces;
          invalidated = true;
        },
        nonce_of x ∷ log,
      )
  unfolding mark_previous local_is_used
  signed-IsSafe s x x' m log guards signed (a, b, c) =
      let (session, _, fresh) = sign_guards-ok s x guards in
      let (n, local, bound) = c x session in
      let fresh' : contains_nonce s.used_nonces (nonce_of x) ≡ false =
        rw bound (rw local at fresh) in
      (
        (
          rw (local, bound) (contains-mark (pub_nonce n) s.used_nonces),
          All-IsUsed_previous s.local_nonces s.used_nonces log a,
        ),
        (contains-of_used (nonce_of x) s.used_nonces log a fresh', b),
        λ z e. (
          n,
          local,
          ap nonce_of (sym (some-injective x' z e)) ∙ (sign-nonce_of x m signed ∙ bound),
        ),
      )

  sign-IsSafe :
      (m : List ℕ) (s : Musig2Session l) (log : List (List ℕ))
      → IsSafe l (s, log)
      → IsSafe l (after_sign l (s, log) (sign_message l m s))
  unfolding sign_message after_sign logged
  sign-IsSafe m s log safe = elim (Result-cases (sign_guards l s)) [
    | inr (e, refused) ↦ rw refused safe
    | inl (x, guards) ↦ elim (Option-cases (sign x m)) [
      | inl failed ↦ rw (guards, failed) safe
      | inr ((g, x'), signed) ↦
          rw (guards, signed, (sign_guards-ok s x guards).0)
            (signed-IsSafe s x x' m log guards signed safe)
    ]
  ]

  step-IsSafe : (x : Call l) (t : Traced l) → IsCareful l x t.0 → IsSafe l t → IsSafe l (step l x t)
  unfolding step
  step-IsSafe (remote_key k) (s, log) h safe =
      SameNonces-IsSafe s (set_remote_pub_key l k s).0 log (remote_key-same k s) safe
  step-IsSafe (generate r) (s, log) h safe = generate-IsSafe r s log h safe
  step-IsSafe (remote_nonce n) (s, log) h safe =
      SameNonces-IsSafe s (set_remote_nonce l n s) log (remote_nonce-same n s) safe
  step-IsSafe start (s, log) h safe = start-IsSafe s log safe
  step-IsSafe (sign_with m) (s, log) h safe = sign-IsSafe m s log safe
  step-IsSafe (reset r) (s, log) h safe = reset-IsSafe r s log safe

  pub run-IsSafe :
      (t : Traced l) (xs : List (Call l)) → AllCareful l t xs → IsSafe l t → IsSafe l (run l t xs)
  unfolding run
  run-IsSafe t [] h safe = safe
  run-IsSafe t (x ∷ xs) (h, hs) safe = run-IsSafe (step l x t) xs hs (step-IsSafe x t h safe)
