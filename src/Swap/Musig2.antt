-- ===== src/Swap/Musig2.antt =====
-- internal/swap/musig2.go: a MuSig2 session, its nonces and its signatures.
-- The addresses stand in Musig2/Address.antt.
pub mod Address
pub mod Trace
pub mod Steps
pub mod Nonces
use klingdex.Prelude.{
  ℕ, String, Bool, true, false, ◌||◌, Option, none, some, List, [], ◌∷◌, length, Result, ok, err,
  ◌>>=◌, ◌>>◌, guard, if◌then◌else◌, not, ◌==◌, ◌&&◌,
}
use klingdex.Chain
use klingdex.Chain.{Network, Params}
use klingdex.Helpers.Bytes.{Order, greater, compare_bytes, bytes_equal}
use klingdex.Swap.HtlcScript.{of_option}
use klingdex.Swap.Musig2Lib.{Musig2Lib}
use klingdex.Swap.Crypto.{Crypto}
use klingdex.Swap.Taproot.{TaprootScriptTree}

pub data Musig2Error : Type 0 where
  unsupported_chain taproot_not_supported invalid_pub_key key_aggregation_failed : Musig2Error
  nonce_not_set session_not_ready signing_failed nonce_already_used nonce_reuse : Musig2Error
  session_invalidated nonce_generation_failed context_failed tree_failed : Musig2Error
  combine_failed bad_length : Musig2Error

-- The set of used nonces, a Go map to `true`.
unfoldable pub contains_nonce : List (List ℕ) → List ℕ → Bool
contains_nonce [] n = false
contains_nonce (x ∷ xs) n = bytes_equal x n || contains_nonce xs n

unfoldable pub mark_used : List ℕ → List (List ℕ) → List (List ℕ)
mark_used n used = if contains_nonce used n then used else n ∷ used

is_greater : Order → Bool
is_greater greater = true
is_greater _ = false

unfoldable pub is_some : {A : Type 0} → Option A → Bool
is_some none = false
is_some (some _) = true

module _ {c : Crypto} (l : Musig2Lib c) where
  open c use {PrivKey, PubKey, pub_key, serialize_compressed}
  open l use {
    AggregateKey, Nonces, Context, LibSession, Signature, aggregate_keys, pub_nonce, new_context,
    new_session, register_pub_nonce, sign,
  }

  pub record Musig2Session : Type 0 where
    pub symbol : String
    pub network : Network
    pub local_priv_key : PrivKey
    pub local_pub_key : PubKey
    pub remote_pub_key : Option PubKey
    pub aggregated_key : Option AggregateKey
    pub local_nonces : Option Nonces
    pub remote_nonces : List ℕ
    pub has_remote_nonce : Bool
    pub used_nonces : List (List ℕ)
    pub nonce_used : Bool
    pub invalidated : Bool
    pub context : Option Context
    pub session : Option LibSession
    pub tweak_applied : Bool
    pub script_tree : Option (TaprootScriptTree c)

  unfoldable pub new_musig2_session : String → Network → PrivKey → Result Musig2Error Musig2Session
  new_musig2_session symbol n key = do
    p ← of_option unsupported_chain (Chain.get symbol n)
    guard (p.supports_taproot) taproot_not_supported
    ok (record {
      symbol = symbol;
      network = n;
      local_priv_key = key;
      local_pub_key = pub_key key;
      remote_pub_key = none;
      aggregated_key = none;
      local_nonces = none;
      remote_nonces = [];
      has_remote_nonce = false;
      used_nonces = [];
      nonce_used = false;
      invalidated = false;
      context = none;
      session = none;
      tweak_applied = false;
      script_tree = none;
    })

  -- A method returns the session that it leaves, also where it fails, and its error.
  abbrev pub Outcome : Type 0
  Outcome = Musig2Session × Option Musig2Error

  unfoldable pub set_remote_pub_key : Option PubKey → Musig2Session → Outcome
  set_remote_pub_key none s = (s, some invalid_pub_key)
  set_remote_pub_key (some k) s =
      let s' = record s { remote_pub_key = some k } in
      elim (aggregate_keys (s.local_pub_key ∷ k ∷ [])) [
        | none ↦ (s', some key_aggregation_failed)
        | some a ↦ (record s' { aggregated_key = some a }, none)
      ]

  unfoldable pub mark_previous : Option Nonces → List (List ℕ) → List (List ℕ)
  mark_previous none used = used
  mark_previous (some n) used = mark_used (pub_nonce n) used

  -- `random` is what `GenNonces` gave.
  unfoldable pub generate_nonces : Option Nonces → Musig2Session → Outcome
  unfolding mark_previous
  generate_nonces random s =
      let s' = record s {
        used_nonces = mark_previous s.local_nonces s.used_nonces;
        nonce_used = false;
        invalidated = false;
      } in
      elim random [
        | none ↦ (s', some nonce_generation_failed)
        | some n ↦
            if contains_nonce s'.used_nonces (pub_nonce n)
            then (s', some nonce_reuse)
            else (record s' { local_nonces = some n }, none)
      ]

  unfoldable pub set_remote_nonce : List ℕ → Musig2Session → Musig2Session
  set_remote_nonce n s = record s { remote_nonces = n; has_remote_nonce = true }

  -- Both public keys, the lesser one first.
  sorted_keys : PubKey → PubKey → List PubKey
  unfolding is_greater
  sorted_keys k r =
      if is_greater (compare_bytes (serialize_compressed k) (serialize_compressed r))
      then r ∷ k ∷ []
      else k ∷ r ∷ []

  -- The option for the tweak is given where the root is not empty.
  tweak_root : Option (TaprootScriptTree c) → Option (List ℕ)
  tweak_root none = none
  tweak_root (some r) = if length r.merkle_root == 0 then none else some r.merkle_root

  -- From the context on; the context stays in the session if a later call fails.
  unfoldable pub start_session : Nonces → Context → Musig2Session → Outcome
  start_session n c s = elim (new_session c n) [
    | none ↦ (record s { context = some c }, some context_failed)
    | some x ↦ elim (register_pub_nonce x s.remote_nonces) [
      | none ↦ (record s { context = some c }, some context_failed)
      | some y ↦ (record s { context = some c; session = some y; tweak_applied = true }, none)
    ]
  ]

  -- Go would fail on a nil remote key here; there is an aggregated key only if there is one.
  unfoldable pub init_signing_session : Musig2Session → Outcome
  unfolding start_session sorted_keys tweak_root is_some
  init_signing_session s = elim s.local_nonces [
    | none ↦ (s, some nonce_not_set)
    | some n ↦
        if not s.has_remote_nonce
        then (s, some nonce_not_set)
        else (if not (is_some s.aggregated_key)
            then (s, some key_aggregation_failed)
            else elim s.remote_pub_key [
              | none ↦ (s, some context_failed)
              | some r ↦
                  elim (new_context s.local_priv_key (sorted_keys s.local_pub_key r)
                    (tweak_root s.script_tree)) [
                      | none ↦ (s, some context_failed)
                      | some c ↦ start_session n c s
                    ]
            ])
  ]

  local_is_used : Option Nonces → List (List ℕ) → Bool
  local_is_used none used = false
  local_is_used (some n) used = contains_nonce used (pub_nonce n)

  -- The tests of `Sign` before it calls the library, in their order.
  sign_guards : Musig2Session → Result Musig2Error LibSession
  unfolding local_is_used
  sign_guards s = do
    x ← of_option session_not_ready s.session
    guard (not s.invalidated) session_invalidated
    guard (not s.nonce_used) nonce_already_used
    guard (not (local_is_used s.local_nonces s.used_nonces)) nonce_reuse
    ok x

  unfoldable pub sign_message :
      List ℕ → Musig2Session → Result Musig2Error (Signature × Musig2Session)
  unfolding sign_guards mark_previous
  sign_message m s = do
    x ← sign_guards s
    (g, x') ← of_option signing_failed (sign x m)
    ok (
      g,
      record s {
        session = some x';
        nonce_used = true;
        used_nonces = mark_previous s.local_nonces s.used_nonces;
        invalidated = true;
      },
    )

  unfoldable pub is_valid : Musig2Session → Bool
  is_valid s = not s.invalidated && not s.nonce_used

  clear_session : Outcome → Outcome
  clear_session (s, some e) = (s, some e)
  clear_session (s, none) = (
    record s { session = none; context = none; has_remote_nonce = false; remote_nonces = [] },
    none,
  )

  unfoldable pub reset_for_new_sign : Option Nonces → Musig2Session → Outcome
  unfolding generate_nonces clear_session
  reset_for_new_sign random s = clear_session (generate_nonces random s)
