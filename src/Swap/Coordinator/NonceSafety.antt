-- ===== src/Swap/Coordinator/NonceSafety.antt =====
-- The nonces that a chain of a MuSig2 swap signs with, under the coordinator's handlers.
use klingdex.Prelude.{ℕ, Option, none, some, List, [], ◌∷◌, All}
use klingdex.Swap.Crypto.{Crypto}
use klingdex.Swap.Txscript.{Txscript}
use klingdex.Swap.Musig2Lib.{Musig2Lib}
use klingdex.Swap.Musig2
use klingdex.Swap.Musig2.{
  Musig2Session, Musig2Error, contains_nonce, init_signing_session, sign_message,
}
use klingdex.Swap.Musig2.Trace.{after_sign, IsDistinct, IsUsed}
use klingdex.Swap.Coordinator.{ChainMusig2}
use klingdex.Swap.Coordinator.Keys.{set_chain_key, make_chain_address}
use klingdex.Swap.Coordinator.Signing.{generate_chain_nonces, sign_chain, receive_nonce}

module _ {c : Crypto} (l : Musig2Lib c) (t : Txscript) where
  open c use {PrivKey, PubKey}
  open l use {Nonces}

  -- What the handlers do to one chain, with what the generator gave.
  pub data Call : Type 0 where
    key : PubKey → Call
    address : PubKey → ℕ → Call
    nonces : Option Nonces → Call
    remote_nonce : List ℕ → Call
    sign : List ℕ → Call

  -- A chain, and the nonces that it has signed with, the last one first.
  abbrev pub Logged : Type 0
  Logged = ChainMusig2 l t × List (List ℕ)

  -- The log after `sign_chain`: longer by the nonce of the signing session, if that was made and
  -- signed.
  signed : List ℕ → Musig2Session l × Option Musig2Error → List (List ℕ) → List (List ℕ)
  signed h (s, some e) log = log
  signed h (s, none) log = (after_sign l (s, log) (sign_message l h s)).1

  chain_step : Call → Logged → Logged
  chain_step (key k) (x, log) = ((set_chain_key l t k x).0, log)
  chain_step (address k n) (x, log) = ((make_chain_address l t k n x).0, log)
  chain_step (nonces r) (x, log) = ((generate_chain_nonces l t r x).0, log)
  chain_step (remote_nonce n) (x, log) = (receive_nonce l t n x, log)
  chain_step (sign h) (x, log) =
      ((sign_chain l t h x).0, signed h (init_signing_session l x.session) log)

  pub chain_run : Logged → List Call → Logged
  chain_run x [] = x
  chain_run x (y ∷ ys) = chain_run (chain_step y x) ys

  -- All that has signed is marked as used, and nothing signed twice.
  abbrev IsLogSafe : Musig2Session l → List (List ℕ) → Type 0
  IsLogSafe s log = All (IsUsed s.used_nonces) log × IsDistinct log
