-- ===== src/Swap/HtlcSession.antt =====
-- internal/swap/htlc.go: a session of the HTLC protocol on one chain, and `VerifySecret` and
-- `BuildHTLCScriptData` of htlc_script.go. The mutex is left out: each method runs alone.
pub mod Invariant
use klingdex.Prelude.{
  ℕ, String, Bool, true, false, ◌&&◌, ◌||◌, not, Option, none, some, List, [], ◌==◌, if◌then◌else◌,
  length, str_eq, Result, ok, err, ◌>>=◌, ◌>>◌, guard,
}
use klingdex.Chain
use klingdex.Chain.{Network, ChainType, Params}
use klingdex.Helpers.Bytes.{bytes_equal}
use klingdex.Swap.Crypto.{Crypto}
use klingdex.Swap.Txscript.{Txscript}
use klingdex.Swap.HtlcScript.{
  build_htlc_script, build_htlc_claim_witness, build_htlc_refund_witness, of_option,
}

pub data SessionError : Type 0 where
  unsupported_chain not_bitcoin remote_key_not_set hash_not_set script_failed address_failed :
      SessionError
  nil_key secret_exists hash_exists bad_length secret_mismatch no_script random_failed :
      SessionError

-- `HTLCScriptData`, of which `ScriptHash` is the hash of `script`.
pub record ScriptData : Type 0 where
  pub script : List ℕ
  pub address : String
  pub script_hash : List ℕ
  pub secret_hash : List ℕ
  pub receiver_pub_key : List ℕ
  pub sender_pub_key : List ℕ
  pub timeout_blocks : ℕ

is_bitcoin : ChainType → Bool
is_bitcoin ChainType.bitcoin = true
is_bitcoin _ = false

abbrev pub map_err : {E F A : Type 0} → F → Result E A → Result F A
map_err f (ok a) = ok a
map_err f (err e) = err f

-- `getHTLCChainParams`: only Bitcoin and Litecoin have address parameters.
unfoldable pub get_htlc_chain_params : String → Network → Result SessionError Params
get_htlc_chain_params symbol n = do
  p ← of_option unsupported_chain (Chain.get symbol n)
  guard (str_eq symbol "BTC" || str_eq symbol "LTC") unsupported_chain
  ok p

module _ (c : Crypto) (t : Txscript) where
  open c use {PrivKey, PubKey, pub_key, serialize_compressed, sha256, witness_address}

  pub record HtlcSession : Type 0 where
    pub symbol : String
    pub network : Network
    pub local_priv_key : Option PrivKey
    pub local_pub_key : PubKey
    pub remote_pub_key : Option PubKey
    pub secret : List ℕ
    pub secret_hash : List ℕ
    pub htlc_data : Option ScriptData
    pub is_initiator : Bool

  -- `VerifySecret` of htlc_script.go.
  unfoldable pub verify_secret : List ℕ → List ℕ → Bool
  verify_secret secret expected =
      (length secret == 32 && length expected == 32) && bytes_equal (sha256 secret) expected

  unfoldable pub new_htlc_session :
      String → Network → Option PrivKey → Result SessionError HtlcSession
  unfolding is_bitcoin
  new_htlc_session symbol n key = do
    p ← of_option unsupported_chain (Chain.get symbol n)
    guard (is_bitcoin p.chain_type) not_bitcoin
    k ← of_option random_failed key
    ok (record {
      symbol = symbol;
      network = n;
      local_priv_key = some k;
      local_pub_key = pub_key k;
      remote_pub_key = none;
      secret = [];
      secret_hash = [];
      htlc_data = none;
      is_initiator = false;
    })

  -- `none` is a nil key. The symbol is not looked up.
  unfoldable pub new_htlc_session_with_key :
      String → Network → Option PrivKey → Result SessionError HtlcSession
  new_htlc_session_with_key symbol n key = do
    k ← of_option nil_key key
    ok (record {
      symbol = symbol;
      network = n;
      local_priv_key = some k;
      local_pub_key = pub_key k;
      remote_pub_key = none;
      secret = [];
      secret_hash = [];
      htlc_data = none;
      is_initiator = false;
    })

  -- `BuildHTLCScriptData`
  unfoldable pub build_htlc_script_data :
      List ℕ → PubKey → PubKey → ℕ → String → Network → Result SessionError ScriptData
  unfolding get_htlc_chain_params
  build_htlc_script_data hash receiver sender timeout symbol n = do
    let r = serialize_compressed receiver
    let s = serialize_compressed sender
    script ← map_err script_failed (build_htlc_script t hash r s timeout)
    p ← get_htlc_chain_params symbol n
    a ← of_option address_failed (witness_address p (sha256 script))
    ok (record {
      script = script;
      address = a;
      script_hash = sha256 script;
      secret_hash = hash;
      receiver_pub_key = r;
      sender_pub_key = s;
      timeout_blocks = timeout;
    })

  -- A method that fails leaves the session as it was, so each returns the session that it leaves,
  -- or the error.
  unfoldable pub set_remote_pub_key : Option PubKey → HtlcSession → Result SessionError HtlcSession
  set_remote_pub_key none h = err nil_key
  set_remote_pub_key (some k) h = ok (record h { remote_pub_key = some k })

  unfoldable pub generate_swap_address : ℕ → HtlcSession → Result SessionError HtlcSession
  unfolding build_htlc_script_data
  generate_swap_address timeout h = do
    remote ← of_option remote_key_not_set h.remote_pub_key
    guard (not (length h.secret_hash == 0)) hash_not_set
    d ← build_htlc_script_data h.secret_hash remote h.local_pub_key timeout h.symbol h.network
    ok (record h { htlc_data = some d })

  unfoldable pub generate_swap_address_with_roles :
      PubKey → PubKey → ℕ → HtlcSession → Result SessionError HtlcSession
  unfolding build_htlc_script_data
  generate_swap_address_with_roles sender receiver timeout h = do
    guard (not (length h.secret_hash == 0)) hash_not_set
    d ← build_htlc_script_data h.secret_hash receiver sender timeout h.symbol h.network
    ok (record h { htlc_data = some d })

  -- `random` is what the generator gave: 32 bytes, or an error.
  unfoldable pub generate_secret : Option (List ℕ) → HtlcSession → Result SessionError HtlcSession
  generate_secret random h = do
    guard (length h.secret == 0) secret_exists
    s ← of_option random_failed random
    ok (record h { secret = s; secret_hash = sha256 s; is_initiator = true })

  unfoldable pub set_secret_hash : List ℕ → HtlcSession → Result SessionError HtlcSession
  set_secret_hash hash h = do
    guard (length hash == 32) bad_length
    guard (length h.secret_hash == 0) hash_exists
    ok (record h { secret_hash = hash; is_initiator = false })

  unfoldable pub set_secret : List ℕ → HtlcSession → Result SessionError HtlcSession
  unfolding verify_secret
  set_secret secret h = do
    guard (length secret == 32) bad_length
    guard (verify_secret secret h.secret_hash) secret_mismatch
    ok (record h { secret = secret })

  -- `GetHTLCScript`: empty where there is no script.
  unfoldable pub get_htlc_script : HtlcSession → List ℕ
  get_htlc_script h = elim h.htlc_data [ none ↦ [] | some d ↦ d.script ]

  unfoldable pub has_secret : HtlcSession → Bool
  has_secret h = length h.secret == 32

  unfoldable pub build_claim_witness :
      List ℕ → List ℕ → HtlcSession → Result SessionError (List (List ℕ))
  unfolding verify_secret build_htlc_claim_witness
  build_claim_witness secret signature h = do
    d ← of_option no_script h.htlc_data
    guard (length secret == 32) bad_length
    guard (verify_secret secret h.secret_hash) secret_mismatch
    ok (build_htlc_claim_witness signature secret d.script)

  unfoldable pub build_refund_witness : List ℕ → HtlcSession → Result SessionError (List (List ℕ))
  unfolding build_htlc_refund_witness
  build_refund_witness signature h = do
    d ← of_option no_script h.htlc_data
    ok (build_htlc_refund_witness signature d.script)
