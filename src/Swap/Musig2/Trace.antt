-- ===== src/Swap/Musig2/Trace.antt =====
-- Calls on a MuSig2 session (internal/swap/musig2.go), and the nonces that it has signed with.
use klingdex.Prelude.{
  ℕ, true, false, ◌≡◌, refl, Option, none, some, List, [], ◌∷◌, arith, Result, ok, err, inl, inr,
  Bool-cases, All,
}
use klingdex.Helpers.Bytes.{bytes_equal, bytes_equal_sound, bytes_equal_refl}
use klingdex.Swap.Musig2Lib.{Musig2Lib}
use klingdex.Swap.Crypto.{Crypto}
use klingdex.Swap.Musig2.{
  Musig2Session, Musig2Error, contains_nonce, mark_used, set_remote_pub_key, generate_nonces,
  set_remote_nonce, init_signing_session, sign_message, reset_for_new_sign,
}

-- What is marked is contained, and so is all that was contained before.
pub contains-mark : (n : List ℕ) (used : List (List ℕ)) → contains_nonce (mark_used n used) n ≡ true
unfolding contains_nonce mark_used
contains-mark n used = ground (arith, bytes_equal_refl n)

pub contains-mark_old :
    (n k : List ℕ) (used : List (List ℕ))
    → contains_nonce used k ≡ true
    → contains_nonce (mark_used n used) k ≡ true
unfolding contains_nonce mark_used
contains-mark_old n k used h = ground arith

-- No element is repeated.
abbrev pub IsDistinct : List (List ℕ) → Type 0
IsDistinct [] = Unit {0}
IsDistinct (x ∷ xs) = (contains_nonce xs x ≡ false) × IsDistinct xs

abbrev pub IsUsed : List (List ℕ) → List ℕ → Type 0
IsUsed used n = contains_nonce used n ≡ true

pub All-IsUsed_mark :
    (n : List ℕ) (used log : List (List ℕ))
    → All (IsUsed used) log
    → All (IsUsed (mark_used n used)) log
All-IsUsed_mark n used [] h = tt
All-IsUsed_mark n used (x ∷ xs) (p, h) = (contains-mark_old n x used p, All-IsUsed_mark n used xs h)

-- Equal byte strings are members of the same lists, so a nonce outside `used` is outside `log`.
pub contains-of_used :
    (n : List ℕ) (used log : List (List ℕ))
    → All (IsUsed used) log
    → contains_nonce used n ≡ false
    → contains_nonce log n ≡ false
unfolding contains_nonce
contains-of_used n used [] h k = refl
contains-of_used n used (x ∷ xs) (p, h) k = elim (Bool-cases (bytes_equal x n)) [
  | inl same ↦ absurd (let e = bytes_equal_sound x n same in ground (arith, rw e at p))
  | inr other ↦ rw other (contains-of_used n used xs h k)
]

module _ {c : Crypto} (l : Musig2Lib c) where
  open c use {PrivKey, PubKey, pub_key, serialize_compressed}
  open l use {
    Nonces, Context, LibSession, Signature, pub_nonce, sign, nonce_of, new_session,
    new_session-nonce_of, new_context, register_pub_nonce, register_pub_nonce-nonce_of,
    sign-nonce_of,
  }

  pub data Call : Type 0 where
    remote_key : Option PubKey → Call
    generate : Option Nonces → Call
    remote_nonce : List ℕ → Call
    start : Call
    sign_with : List ℕ → Call
    reset : Option Nonces → Call

  -- A session, and the nonces that it has signed with, the last one first.
  abbrev pub Traced : Type 0
  Traced = Musig2Session l × List (List ℕ)

  unfoldable pub logged : Option LibSession → List (List ℕ) → List (List ℕ)
  logged none log = log
  logged (some x) log = nonce_of x ∷ log

  unfoldable pub after_sign : Traced → Result Musig2Error (Signature × Musig2Session l) → Traced
  unfolding logged
  after_sign (s, log) (err e) = (s, log)
  after_sign (s, log) (ok (g, s')) = (s', logged s.session log)

  unfoldable pub step : Call → Traced → Traced
  unfolding after_sign
  step (remote_key k) (s, log) = ((set_remote_pub_key l k s).0, log)
  step (generate r) (s, log) = ((generate_nonces l r s).0, log)
  step (remote_nonce n) (s, log) = (set_remote_nonce l n s, log)
  step start (s, log) = ((init_signing_session l s).0, log)
  step (sign_with m) (s, log) = after_sign (s, log) (sign_message l m s)
  step (reset r) (s, log) = ((reset_for_new_sign l r s).0, log)

  unfoldable pub run : Traced → List Call → Traced
  run t [] = t
  run t (x ∷ xs) = run (step x t) xs

  -- `GenerateNonces` is called by itself only where there is no signing session.
  abbrev pub IsCareful : Call → Musig2Session l → Type 0
  IsCareful (generate _) s = s.session ≡ none
  IsCareful _ s = Unit {0}

  abbrev pub AllCareful : Traced → List Call → Type 0
  AllCareful t [] = Unit {0}
  AllCareful t (x ∷ xs) = IsCareful x t.0 × AllCareful (step x t) xs

  -- A signing session signs with the nonces that the tests of `Sign` look at.
  abbrev pub IsBound : Musig2Session l → Type 0
  IsBound s =
      (x : LibSession)
      → s.session ≡ some x
      → (n : Nonces) × (s.local_nonces ≡ some n) × (nonce_of x ≡ pub_nonce n)

  abbrev pub IsSafe : Traced → Type 0
  IsSafe (s, log) = All (IsUsed s.used_nonces) log × IsDistinct log × IsBound s
