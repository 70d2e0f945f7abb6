-- ===== src/Swap/Coordinator.antt =====
-- internal/swap/coordinator*.go: the active swaps of a node and the handlers that change them. The
-- lock is left out: each handler runs alone. So are the copies in the database, which
-- `saveSwapState` writes after a change and whose errors are only logged, the log, the EVM
-- sessions, and the data of an event beside its trade and type.
mod Tests
pub mod Start
pub mod Keys
pub mod Agreement
pub mod Signing
pub mod Tracking
pub mod Secrets
pub mod Frame
pub mod Lifecycle
pub mod NonceSafety
pub mod HashMismatch
pub mod HtlcSpend
pub mod ClaimState
pub mod Refund
pub mod Timeouts
use klingdex.Prelude.{
  ℕ, ◌%◌, ◌^◌, String, Bool, true, false, not, ◌&&◌, ◌≡◌, Option, none, some, List, [], ◌∷◌, ◌++◌,
  map, lookup, Result, ok, err, if◌then◌else◌, str_eq,
}
use klingdex.Chain.{Network}
use klingdex.Swap.HtlcScript.{of_option}
use klingdex.Swap.Crypto.{Crypto}
use klingdex.Swap.Txscript.{Txscript}
use klingdex.Swap.Musig2Lib.{Musig2Lib}
use klingdex.Swap.Musig2.{Musig2Session, Musig2Error}
use klingdex.Swap.HtlcSession.{HtlcSession, SessionError}
use klingdex.Swap.Types.{Swap, SwapError, Method, musig2, htlc}

pub data CoordError : Type 0 where
  swap_not_found swap_exists no_wallet no_backend already_funded not_ready_to_sign : CoordError
  backend_failed random_failed unsupported_method bad_remote_key no_local_key : CoordError
  unknown_chain bad_length no_signature scalar_overflow only_initiator secret_mismatch : CoordError
  not_htlc no_htlc no_musig2 bad_chain no_funding no_secret no_script build_failed : CoordError
  secret_not_found nil_pointer no_address : CoordError
  cannot_refund_yet : ℕ → CoordError
  swap_error : SwapError → CoordError
  musig2_error : Musig2Error → CoordError
  htlc_error : SessionError → CoordError

-- What a chain's backend answers during a handler; `none` is an error. A transaction that is sent
-- is its bytes, and the answer its id.
pub record Backend : Type 0 where
  pub block_height : Option ℕ
  pub confirmations : String → Option ℕ
  -- The fees for half an hour and for an hour.
  pub fees : Option (ℕ × ℕ)
  pub broadcast : List ℕ → Option String

abbrev pub Backends : Type 0
Backends = String → Option Backend

height_of : Option Backend → Result CoordError ℕ
height_of none = err no_backend
height_of (some b) = elim b.block_height [ none ↦ err backend_failed | some h ↦ ok (h % 2 ^ 32) ]

unfoldable pub get_block_height : Backends → String → Result CoordError ℕ
unfolding height_of
get_block_height bs chain = height_of (bs chain)

confirmations_of : String → Option Backend → Result CoordError ℕ
confirmations_of tx none = err no_backend
confirmations_of tx (some b) = elim (b.confirmations tx) [
  | none ↦ err backend_failed
  | some n ↦ ok (n % 2 ^ 32)
]

unfoldable pub get_confirmations : Backends → String → String → Result CoordError ℕ
unfolding confirmations_of
get_confirmations bs chain tx = confirmations_of tx (bs chain)

-- Go's `v, _ := f()`
abbrev pub or_zero : Result CoordError ℕ → ℕ
or_zero (ok n) = n
or_zero (err _) = 0

-- `fmt.Errorf("...: %w", err)`
abbrev pub wrap : {E A : Type 0} → (E → CoordError) → Result E A → Result CoordError A
wrap f (ok a) = ok a
wrap f (err e) = err (f e)

pub wrap-eq-ok :
    {E A : Type 0} (f : E → CoordError) (r : Result E A) {v : A} → wrap f r ≡ ok v → r ≡ ok v
wrap-eq-ok f (ok a) h = cc
wrap-eq-ok f (err e) h = cc

abbrev pub is_musig2_method : Method → Bool
is_musig2_method musig2 = true
is_musig2_method _ = false

abbrev pub is_htlc_method : Method → Bool
is_htlc_method htlc = true
is_htlc_method _ = false

module _ {c : Crypto} (l : Musig2Lib c) (t : Txscript) where
  open c use {PrivKey}
  open l use {Signature}

  pub record ChainMusig2 : Type 0 where
    pub session : Musig2Session l
    pub taproot_address : String
    pub local_nonce : List ℕ
    pub remote_nonce : List ℕ
    pub partial_sig : Option Signature
    pub remote_partial_sig : Option Signature

  pub record Musig2Data : Type 0 where
    pub local_priv_key : PrivKey
    pub offer_chain : ChainMusig2
    pub request_chain : ChainMusig2

  pub record ChainHtlc : Type 0 where
    pub session : HtlcSession c t
    pub htlc_address : String

  -- The key is missing in a swap that was read back from the database.
  pub record HtlcData : Type 0 where
    pub local_priv_key : Option PrivKey
    pub offer_chain : ChainHtlc
    pub request_chain : ChainHtlc

  pub record ActiveSwap : Type 0 where
    pub swap : Swap
    pub musig2_data : Option Musig2Data
    pub htlc_data : Option HtlcData

  unfoldable pub is_htlc : ActiveSwap → Bool
  is_htlc a = is_htlc_method a.swap.method && elim a.htlc_data [ none ↦ false | some _ ↦ true ]

  unfoldable pub is_musig2 : ActiveSwap → Bool
  is_musig2 a = is_musig2_method a.swap.method

  pub record Coordinator : Type 0 where
    pub network : Network
    pub swaps : List (String × ActiveSwap)
    -- The trade and the type of each event, the latest first.
    pub events : List (String × String)

  -- What a handler leaves of its swap, the types of the events that it emits, and its result. An
  -- error does not undo what was written before it.
  pub record Reply (A : Type 0) : Type 0 where
    pub active : ActiveSwap
    pub emitted : List String
    pub result : Result CoordError A

  abbrev pub fail : {A : Type 0} → ActiveSwap → CoordError → Reply A
  fail a e = record { active = a; emitted = []; result = err e }

  abbrev pub done : {A : Type 0} → ActiveSwap → A → Reply A
  done a v = record { active = a; emitted = []; result = ok v }

  abbrev pub announce : {A : Type 0} → String → ActiveSwap → A → Reply A
  announce e a v = record { active = a; emitted = e ∷ []; result = ok v }

  -- An error returns at once; the next statement runs on a value.
  abbrev pub proceed : {A B : Type 0} → ActiveSwap → Result CoordError A → (A → Reply B) → Reply B
  proceed a (ok v) next = next v
  proceed a (err e) next = fail a e

  abbrev pub when : {B : Type 0} → Bool → ActiveSwap → CoordError → Reply B → Reply B
  when test a e next = if test then next else fail a e

  -- `c.swaps[tradeID] = active`
  unfoldable pub put : String → ActiveSwap → List (String × ActiveSwap) → List (String × ActiveSwap)
  put id a [] = (id, a) ∷ []
  put id a ((j, b) ∷ m) = let rest = put id a m in if str_eq j id then (j, a) ∷ m else (j, b) ∷ rest

  -- A handler finds its swap, or returns `ErrSwapNotFound`.
  unfoldable pub with_swap :
      {A : Type 0}
      → String
      → (ActiveSwap → Reply A)
      → Coordinator
      → Coordinator × Result CoordError A
  with_swap id handler s = elim (lookup id s.swaps) [
    | none ↦ (s, err swap_not_found)
    | some a ↦
        let r = handler a in
        (
          record s {
            swaps = put id r.active s.swaps;
            events = map (λ e. (id, e)) r.emitted ++ s.events;
          },
          r.result,
        )
  ]

  unfoldable pub get_swap : String → Coordinator → Result CoordError ActiveSwap
  get_swap id s = of_option swap_not_found (lookup id s.swaps)
