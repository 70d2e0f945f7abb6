-- ===== src/Swap/HtlcSession/Invariant.antt =====
-- What holds of an HTLC session under every sequence of calls.
mod Tests
use klingdex.Prelude.{
  ℕ, ◌≤◌, ◌<◌, Bool, true, false, ◌≡◌, refl, ◌⊎◌, inl, inr, Option, none, some, List, [], ◌∷◌,
  arith, ◌==◌, length, ◌∙◌, All, Result, ok, err, ◌↔◌, if◌then◌else◌,
}
use klingdex.Helpers.Bytes.{bytes_equal, bytes_equal_sound, bytes_equal_refl}
use klingdex.Swap.Crypto.{Crypto}
use klingdex.Swap.Txscript.{Txscript}
use klingdex.Swap.HtlcScript.{build_htlc_claim_witness, build_htlc_script}
use klingdex.Swap.HtlcSession.{
  SessionError, ScriptData, HtlcSession, verify_secret, set_remote_pub_key, generate_swap_address,
  build_htlc_script_data, get_htlc_chain_params, generate_swap_address_with_roles, generate_secret,
  set_secret_hash, set_secret, has_secret, build_claim_witness,
}

module _ (c : Crypto) (t : Txscript) where
  open c use {PubKey, serialize_compressed, sha256, sha256_bytes}

  -- The calls that write to a session.
  pub data Call : Type 0 where
    remote_key : Option PubKey → Call
    address : ℕ → Call
    address_with_roles : PubKey → PubKey → ℕ → Call
    generate : Option (List ℕ) → Call
    receive_hash : List ℕ → Call
    reveal : List ℕ → Call

  step : Call → HtlcSession c t → Result SessionError (HtlcSession c t)
  step (remote_key k) h = set_remote_pub_key c t k h
  step (address n) h = generate_swap_address c t n h
  step (address_with_roles s r n) h = generate_swap_address_with_roles c t s r n h
  step (generate random) h = generate_secret c t random h
  step (receive_hash x) h = set_secret_hash c t x h
  step (reveal x) h = set_secret c t x h

  -- A call that fails leaves the session alone.
  abbrev after : HtlcSession c t → Result SessionError (HtlcSession c t) → HtlcSession c t
  after h (ok h') = h'
  after h (err _) = h

  pub run : HtlcSession c t → List Call → HtlcSession c t
  run h [] = h
  run h (x ∷ xs) = run (after h (step x h)) xs

  -- The generator returns 32 bytes where it does not fail.
  abbrev pub IsSound : Call → Type 0
  IsSound (generate (some s)) = length s ≡ 32
  IsSound _ = Unit {0}

  -- A known secret is the preimage of the hash.
  abbrev pub IsConsistent : HtlcSession c t → Type 0
  IsConsistent h = (h.secret ≡ []) ⊎ ((length h.secret ≡ 32) × (sha256 h.secret ≡ h.secret_hash))

  -- `VerifySecret` accepts exactly the preimages of 32 bytes.
  pub verify_secret_iff :
      (s x : List ℕ) → (verify_secret c t s x ≡ true) ↔ ((length s ≡ 32) × (sha256 s ≡ x))
  unfolding verify_secret
  verify_secret_iff s x = (
    (λ h. ground (arith, bytes_equal_sound (sha256 s) x)),
    (λ h. ground (arith, bytes_equal_refl (sha256 s), (sha256_bytes s).0)),
  )

  -- The secret and its hash are the same.
  abbrev SameSecret : HtlcSession c t → HtlcSession c t → Type 0
  SameSecret h h' = (h'.secret ≡ h.secret) × (h'.secret_hash ≡ h.secret_hash)

  address-SameSecret :
      (n : ℕ) (h : HtlcSession c t) → SameSecret h (after h (generate_swap_address c t n h))
  unfolding generate_swap_address
  address-SameSecret n h = ground arith

  address_with_roles-SameSecret :
      (a b : PubKey) (n : ℕ) (h : HtlcSession c t)
      → SameSecret h (after h (generate_swap_address_with_roles c t a b n h))
  unfolding generate_swap_address_with_roles
  address_with_roles-SameSecret a b n h = ground arith

  remote_key-SameSecret :
      (k : Option PubKey) (h : HtlcSession c t)
      → SameSecret h (after h (set_remote_pub_key c t k h))
  unfolding set_remote_pub_key
  remote_key-SameSecret k h = ground arith

  generate-IsConsistent :
      (r : Option (List ℕ)) (h : HtlcSession c t)
      → IsSound (generate r)
      → IsConsistent h
      → IsConsistent (after h (generate_secret c t r h))
        × (length h.secret ≡ 32 → SameSecret h (after h (generate_secret c t r h)))
  unfolding generate_secret
  generate-IsConsistent none h s i = (ground arith, λ k. ground arith)
  generate-IsConsistent (some r) h s i = (ground arith, λ k. ground arith)

  receive_hash-IsConsistent :
      (x : List ℕ) (h : HtlcSession c t)
      → IsConsistent h
      → IsConsistent (after h (set_secret_hash c t x h))
        × (length h.secret ≡ 32 → SameSecret h (after h (set_secret_hash c t x h)))
  unfolding set_secret_hash
  receive_hash-IsConsistent x h i =
      (ground (arith, (sha256_bytes h.secret).0), (λ k. ground (arith, (sha256_bytes h.secret).0)))

  reveal-IsConsistent :
      (x : List ℕ) (h : HtlcSession c t)
      → IsConsistent h
      → IsConsistent (after h (set_secret c t x h))
        × ((after h (set_secret c t x h)).secret_hash ≡ h.secret_hash)
        × (length h.secret ≡ 32 → length (after h (set_secret c t x h)).secret ≡ 32)
  unfolding set_secret
  reveal-IsConsistent x h i = (
    ground (arith, bytes_equal_sound (sha256 x) h.secret_hash),
    ground arith,
    (λ n. ground arith),
  )

  step-IsConsistent :
      (x : Call) (h : HtlcSession c t)
      → IsSound x
      → IsConsistent h
      → IsConsistent (after h (step x h))
  unfolding step
  step-IsConsistent (remote_key k) h s i = ground (arith, remote_key-SameSecret k h)
  step-IsConsistent (address n) h s i = ground (arith, address-SameSecret n h)
  step-IsConsistent (address_with_roles a b n) h s i =
      ground (arith, address_with_roles-SameSecret a b n h)
  step-IsConsistent (generate r) h s i = (generate-IsConsistent r h s i).0
  step-IsConsistent (receive_hash x) h s i = (receive_hash-IsConsistent x h i).0
  step-IsConsistent (reveal x) h s i = (reveal-IsConsistent x h i).0

  step-keeps_hash :
      (x : Call) (h : HtlcSession c t)
      → IsSound x
      → IsConsistent h
      → length h.secret ≡ 32
      → ((after h (step x h)).secret_hash ≡ h.secret_hash)
        × (length (after h (step x h)).secret ≡ 32)
  unfolding step
  step-keeps_hash (remote_key k) h s i n = ground (arith, remote_key-SameSecret k h)
  step-keeps_hash (address m) h s i n = ground (arith, address-SameSecret m h)
  step-keeps_hash (address_with_roles a b m) h s i n =
      ground (arith, address_with_roles-SameSecret a b m h)
  step-keeps_hash (generate r) h s i n = ground (arith, (generate-IsConsistent r h s i).1 n)
  step-keeps_hash (receive_hash x) h s i n = ground (arith, (receive_hash-IsConsistent x h i).1 n)
  step-keeps_hash (reveal x) h s i n =
      let (_, same, long) = reveal-IsConsistent x h i in (same, long n)

  -- After any calls on a consistent session, a known secret is still the preimage of the hash.
  pub run-IsConsistent :
      (h : HtlcSession c t) (xs : List Call)
      → All IsSound xs
      → IsConsistent h
      → IsConsistent (run h xs)
  unfolding run
  run-IsConsistent h [] s i = i
  run-IsConsistent h (x ∷ xs) (s, ss) i =
      run-IsConsistent (after h (step x h)) xs ss (step-IsConsistent x h s i)

  -- Once the secret is known, no call changes the hash or forgets the secret.
  pub run-keeps_hash :
      (h : HtlcSession c t) (xs : List Call)
      → All IsSound xs
      → IsConsistent h
      → has_secret c t h ≡ true
      → ((run h xs).secret_hash ≡ h.secret_hash) × (has_secret c t (run h xs) ≡ true)
  unfolding run has_secret
  run-keeps_hash h [] s i k = (refl, k)
  run-keeps_hash h (x ∷ xs) (s, ss) i k =
      let (same, long) = step-keeps_hash x h s i (ground arith) in
      let (rest, known) =
        run-keeps_hash (after h (step x h)) xs ss (step-IsConsistent x h s i) (ground arith) in
      (rest ∙ same, known)

  -- After any calls on a consistent session that leave it with a script and a secret, the claim
  -- with that secret goes through, and its witness is the signature, the secret, the byte 1 and
  -- the script.
  pub run-claims :
      (h : HtlcSession c t) (xs : List Call) (signature : List ℕ) {d : ScriptData}
      → All IsSound xs
      → IsConsistent h
      → (run h xs).htlc_data ≡ some d
      → has_secret c t (run h xs) ≡ true
      → build_claim_witness c t (run h xs).secret signature (run h xs)
        ≡ ok (signature ∷ (run h xs).secret ∷ (1 ∷ []) ∷ d.script ∷ [])
  unfolding build_claim_witness has_secret
  run-claims h xs signature s i e k =
      claims (run h xs) signature (run-IsConsistent h xs s i) e (ground arith)
    where
      claims :
          (g : HtlcSession c t) (signature : List ℕ) {d : ScriptData}
          → IsConsistent g
          → g.htlc_data ≡ some d
          → length g.secret ≡ 32
          → build_claim_witness c t g.secret signature g
            ≡ ok (signature ∷ g.secret ∷ (1 ∷ []) ∷ d.script ∷ [])
      claims g signature i e k =
          ground (arith, (sha256_bytes g.secret).0, bytes_equal_refl (sha256 g.secret))
