-- ===== src/Swap/Spending.antt =====
-- internal/swap/tx.go: the transactions that spend an escrow output alone: the claim and the refund
-- of an HTLC, and the refund of a Taproot output. Fees are uint64 and wrap. Transaction ids,
-- addresses, signatures and the serialization are the library's.
pub mod Balance
use klingdex.Prelude.{
  ℕ, ◌+◌, ◌-◌, ◌*◌, ◌%◌, ◌^◌, ◌<◌, String, Bool, true, false, ◌&&◌, not, ◌≡◌, Option, none, some,
  List, [], ◌∷◌, ◌++◌, ltb, leb, ◌==◌, if◌then◌else◌, length, str_eq, Result, ok, ◌>>=◌, ◌>>◌,
  guard, >>=-eq-ok, ok-injective, arith, sym, ap, ◌∙◌,
}
use klingdex.Config.DaoAddresses.{get_dao_address, get_dao_address_main}
use klingdex.Chain
use klingdex.Chain.{Network, Params}
use klingdex.Swap.Crypto.{Crypto}
use klingdex.Swap.Txscript.{Txscript, op, push}
use klingdex.Swap.HtlcScript.{of_option, build_htlc_claim_witness, build_htlc_refund_witness}
use klingdex.Swap.Taproot.{TaprootScriptTree, script_pub_key, build_tree_refund_witness}

pub data SpendError : Type 0 where
  no_key no_script bad_secret no_control_block zero_timeout unsupported_chain invalid_tx_id :
      SpendError
  insufficient_funds invalid_address signing_failed : SpendError

-- A transaction with one input. The value of an output, an int64, is written as the uint64 with the
-- same bits, which is what the source converts. It spends `vout` of `previous`.
pub record SpendTx : Type 0 where
  pub version : ℕ
  pub previous : List ℕ
  pub vout : ℕ
  pub sequence : ℕ
  pub outputs : List (List ℕ × ℕ)
  pub witness : List (List ℕ)

-- What the parameter records of the three builders share.
pub record SpendParams (c : Crypto) : Type 0 where
  pub symbol : String
  pub network : Network
  pub funding_tx_id : String
  pub funding_vout : ℕ
  pub funding_amount : ℕ
  pub dest_address : String
  pub fee_rate : ℕ
  pub priv_key : Option (c.PrivKey)

abbrev pub u64 : ℕ → ℕ
u64 n = n % 2 ^ 64

-- A difference of two uint64, which wraps.
abbrev pub sub_u64 : ℕ → ℕ → ℕ
sub_u64 a b = if leb b a then a - b else a + 2 ^ 64 - b

pub record TxLib (c : Crypto) : Type 0 where
  pub parse_tx_id : String → Option (List ℕ)
  pub to_script : Params → String → Option (List ℕ)
  -- A signature of the one input, for the script and the amount of the output that it spends.
  pub ecdsa : c.PrivKey → List ℕ → List ℕ → ℕ → SpendTx → Option (List ℕ)
  pub schnorr : c.PrivKey → List ℕ → List ℕ → ℕ → SpendTx → Option (List ℕ)
  pub serialize_tx : SpendTx → Option (List ℕ)

unfoldable pub pays_dao : ℕ → String → Bool
pays_dao fee address = ltb 0 fee && not (str_eq address "")

unfoldable pub claim_fee : ℕ → ℕ → String → ℕ
unfolding pays_dao
claim_fee rate dao_fee dao_address =
    u64 ((10 + 41 + 43 * (if pays_dao dao_fee dao_address then 2 else 1) + 52) * rate)

unfoldable pub htlc_refund_fee : ℕ → ℕ
htlc_refund_fee rate = u64 ((10 + 41 + 43 + 44) * rate)

unfoldable pub tree_refund_fee : ℕ → ℕ
tree_refund_fee rate = u64 ((10 + 58 + 43 + 34) * rate)

module _ {c : Crypto} (x : TxLib c) where
  open x use {parse_tx_id, to_script, ecdsa, schnorr}

  -- The chain and the hash of the funding transaction.
  unfoldable pub find_funding : SpendParams c → Result SpendError (Params × List ℕ)
  find_funding p = do
    n ← of_option unsupported_chain (Chain.get p.symbol p.network)
    h ← of_option invalid_tx_id (parse_tx_id p.funding_tx_id)
    ok (n, h)

  unfoldable pub dao_outputs : Bool → Params → ℕ → String → Result SpendError (List (List ℕ × ℕ))
  dao_outputs false n fee address = ok []
  dao_outputs true n fee address = do
    s ← of_option invalid_address (to_script n address)
    ok ((s, fee) ∷ [])

  unfoldable pub unsigned : ℕ → List ℕ → SpendParams c → ℕ → List (List ℕ × ℕ) → SpendTx
  unsigned version h p sequence outputs = record {
    version = version;
    previous = h;
    vout = p.funding_vout;
    sequence = sequence;
    outputs = outputs;
    witness = [];
  }

  -- The error of the script builder is dropped by the source; the two calls cannot fail.
  unfoldable pub witness_script : Txscript → List ℕ → List ℕ
  witness_script t script = elim (t.script (op 0 ∷ push (c.sha256 script) ∷ [])) [
    | none ↦ []
    | some s ↦ s
  ]

  -- OP_TRUE's branch, with the byte of SIGHASH_ALL at the end of the signature.
  unfoldable pub build_htlc_claim_tx :
      Txscript → SpendParams c → List ℕ → List ℕ → String → ℕ → Result SpendError SpendTx
  unfolding find_funding dao_outputs unsigned claim_fee pays_dao witness_script
  build_htlc_claim_tx t p script secret dao_address dao_fee = do
    key ← of_option no_key p.priv_key
    guard (not (length script == 0)) no_script
    guard (length secret == 32) bad_secret
    found ← find_funding p
    guard (not (leb p.funding_amount (u64 (claim_fee p.fee_rate dao_fee dao_address + dao_fee))))
        insufficient_funds
    dao ← dao_outputs (pays_dao dao_fee dao_address) found.0 dao_fee dao_address
    dest ← of_option invalid_address (to_script found.0 p.dest_address)
    let amount =
        sub_u64 (sub_u64 p.funding_amount (claim_fee p.fee_rate dao_fee dao_address)) dao_fee
    let tx = unsigned 1 found.1 p 0xffffffff (dao ++ ((dest, amount) ∷ []))
    s ← of_option signing_failed (ecdsa key (witness_script t script) script p.funding_amount tx)
    ok (record tx { witness = build_htlc_claim_witness (s ++ (1 ∷ [])) secret script })

  unfoldable pub build_htlc_refund_tx :
      Txscript → SpendParams c → List ℕ → ℕ → Result SpendError SpendTx
  unfolding find_funding unsigned htlc_refund_fee witness_script
  build_htlc_refund_tx t p script timeout = do
    key ← of_option no_key p.priv_key
    guard (not (length script == 0)) no_script
    guard (not (timeout == 0)) zero_timeout
    found ← find_funding p
    guard (not (leb p.funding_amount (htlc_refund_fee p.fee_rate))) insufficient_funds
    dest ← of_option invalid_address (to_script found.0 p.dest_address)
    let tx =
        unsigned 2 found.1 p timeout ((dest, p.funding_amount - htlc_refund_fee p.fee_rate) ∷ [])
    s ← of_option signing_failed (ecdsa key (witness_script t script) script p.funding_amount tx)
    ok (record tx { witness = build_htlc_refund_witness (s ++ (1 ∷ [])) script })

  -- `BuildRefundTx`, with the script, the control block and the timelock of a tree.
  unfoldable pub build_refund_tx_from_tree :
      SpendParams c → TaprootScriptTree c → Result SpendError SpendTx
  unfolding find_funding unsigned tree_refund_fee
  build_refund_tx_from_tree p tree = do
    key ← of_option no_key p.priv_key
    guard (not (length tree.refund_script == 0)) no_script
    guard (not (length tree.control == 0)) no_control_block
    guard (not (tree.timeout_blocks == 0)) zero_timeout
    found ← find_funding p
    guard (not (leb p.funding_amount (tree_refund_fee p.fee_rate))) insufficient_funds
    dest ← of_option invalid_address (to_script found.0 p.dest_address)
    let tx =
        unsigned 2 found.1 p tree.timeout_blocks
          ((dest, p.funding_amount - tree_refund_fee p.fee_rate) ∷ [])
    s ←
        of_option signing_failed
          (schnorr key (script_pub_key c tree) tree.refund_script p.funding_amount tx)
    ok (record tx { witness = build_tree_refund_witness c tree s })
