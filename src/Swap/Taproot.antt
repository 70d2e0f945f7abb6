-- ===== src/Swap/Taproot.antt =====
-- internal/swap/script.go: the Taproot output of a MuSig2 swap, with its refund script, and
-- `encodeTaprootAddress` of musig2.go. The keys are never nil here.
use klingdex.Prelude.{
  ℕ, String, true, not, ◌≡◌, refl, List, [], ◌∷◌, arith, leb, ◌==◌, Result, ok, ◌>>=◌, ◌>>◌, guard,
}
use klingdex.Swap.Crypto.{Crypto}
use klingdex.Swap.Txscript.{Txscript, Item, op, push, int}
use klingdex.Swap.HtlcScript.{of_option, op_drop, op_checksig, op_checksequenceverify}
use klingdex.Swap.Bech32.{
  bech32_convert_bits, bech32m_encode, convert_bits-All, bech32m_encode-some,
}

pub data TaprootError : Type 0 where
  zero_timeout timeout_too_large builder_failed control_block_failed address_failed : TaprootError

-- The calls of the builder in `BuildRefundScript`.
abbrev refund_items : List ℕ → ℕ → List Item
refund_items key timeout =
    int timeout ∷ op op_checksequenceverify ∷ op op_drop ∷ push key ∷ op op_checksig ∷ []

module _ (c : Crypto) where
  open c use {PubKey, x_only}

  -- The leaf is the refund script under the default leaf version.
  pub record TaprootScriptTree : Type 0 where
    pub internal_key : PubKey
    pub tweaked_key : PubKey
    pub refund_script : List ℕ
    pub merkle_root : List ℕ
    pub control : List ℕ
    pub timeout_blocks : ℕ

  unfoldable pub encode_taproot_address : PubKey → String → Result TaprootError String
  encode_taproot_address key hrp = do
    groups ← of_option address_failed (bech32_convert_bits (x_only key) 8 5 true)
    of_option address_failed (bech32m_encode hrp (1 ∷ groups))

  unfoldable pub taproot_address : TaprootScriptTree → String → Result TaprootError String
  unfolding encode_taproot_address
  taproot_address tree hrp = encode_taproot_address tree.tweaked_key hrp

  -- OP_1 and OP_DATA_32, and then the key.
  unfoldable pub script_pub_key : TaprootScriptTree → List ℕ
  script_pub_key tree = 0x51 ∷ 0x20 ∷ x_only tree.tweaked_key

  unfoldable pub build_tree_refund_witness : TaprootScriptTree → List ℕ → List (List ℕ)
  build_tree_refund_witness tree signature = signature ∷ tree.refund_script ∷ tree.control ∷ []

  -- Every key has an address under every prefix.
  pub encode_taproot_address-ok :
      (k : PubKey) (hrp : String) → (a : String) × (encode_taproot_address k hrp ≡ ok a)
  unfolding encode_taproot_address
  encode_taproot_address-ok k hrp =
      let (g, e, h) = convert_bits-All (x_only k) in
      let (a, f) = bech32m_encode-some hrp (1 ∷ g) (omega arith, h) in (a, rw (e, f) refl)

module _ (c : Crypto) (t : Txscript) where
  open c use {PubKey, x_only, output_key, tap_hash, control_block, x_only_bytes}
  open t use {script, make, next, script_reads, Tokenizer}

  unfoldable pub build_refund_script : PubKey → ℕ → Result TaprootError (List ℕ)
  build_refund_script key timeout = do
    guard (not (timeout == 0)) zero_timeout
    guard (leb timeout 0xffff) timeout_too_large
    of_option builder_failed (script (refund_items (x_only key) timeout))

  unfoldable pub build_taproot_script_tree :
      PubKey → PubKey → ℕ → Result TaprootError (TaprootScriptTree c)
  build_taproot_script_tree aggregated refund timeout = do
    s ← build_refund_script refund timeout
    let root = tap_hash s
    b ← of_option control_block_failed (control_block s aggregated)
    ok (record {
      internal_key = aggregated;
      tweaked_key = output_key aggregated root;
      refund_script = s;
      merkle_root = root;
      control = b;
      timeout_blocks = timeout;
    })
