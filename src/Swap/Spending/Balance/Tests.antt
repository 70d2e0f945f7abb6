-- ===== src/Swap/Spending/Balance/Tests.antt =====
-- A claim and a refund of an escrow of 100000 units.
use klingdex.Prelude.{
  ℕ, ◌+◌, ◌<◌, ◌≡◌, refl, true, some, List, [], ◌∷◌, Result, ok, err, replicate, arith, length,
  if◌then◌else◌,
}
use klingdex.Chain.{testnet, mainnet, Network}
use klingdex.Swap.Crypto.Constant.{constant_crypto}
use klingdex.Swap.Txscript.Plain.{plain_txscript}
use klingdex.Swap.HtlcScript.{build_htlc_claim_witness, build_htlc_refund_witness}
use klingdex.Swap.Spending.{
  SpendTx, SpendParams, SpendError, TxLib, build_htlc_claim_tx, build_htlc_refund_tx, claim_fee,
  htlc_refund_fee, pays_dao,
}
use klingdex.Swap.Spending.Balance.{
  total_out, build_htlc_claim_tx-Balance, build_htlc_refund_tx-Locks,
}

abbrev tx_lib : TxLib constant_crypto
tx_lib = record {
  parse_tx_id = λ s. some (1 ∷ []);
  to_script = λ n a. some (2 ∷ []);
  ecdsa = λ k s u n tx. some (3 ∷ []);
  schnorr = λ k s u n tx. some (3 ∷ []);
  serialize_tx = λ tx. some (4 ∷ []);
}

abbrev params_on : Network → SpendParams constant_crypto
params_on n = record {
  symbol = "BTC";
  network = n;
  funding_tx_id = "aa";
  funding_vout = 0;
  funding_amount = 100000;
  dest_address = "bb";
  fee_rate = 2;
  priv_key = some true;
}

abbrev no_tx : SpendTx
no_tx = record { version = 0; previous = []; vout = 0; sequence = 0; outputs = []; witness = [] }

abbrev get_or : Result SpendError SpendTx → SpendTx
get_or (ok x) = x
get_or (err _) = no_tx

abbrev secret : List ℕ
secret = replicate 32 5

abbrev script : List ℕ
script = 9 ∷ []

abbrev claimed : Result SpendError SpendTx
claimed = build_htlc_claim_tx tx_lib plain_txscript (params_on testnet) script secret "cc" 546

build_htlc_claim_tx-Balance_example :
    (total_out tx_lib (get_or claimed).outputs
        + claim_fee 2 546 "cc"
        + (if pays_dao 546 "cc" then 0 else 546)
      ≡ 100000)
    × ((get_or claimed).sequence ≡ 0xffffffff)
    × (length secret ≡ 32)
    × (s : List ℕ) × ((get_or claimed).witness ≡ build_htlc_claim_witness s secret script)
unfolding build_htlc_claim_tx klingdex.Chain.get
build_htlc_claim_tx-Balance_example =
    build_htlc_claim_tx-Balance tx_lib plain_txscript (params_on testnet) script secret "cc" 546
      {tx = get_or claimed} refl (omega arith)

abbrev refund : Result SpendError SpendTx
refund = build_htlc_refund_tx tx_lib plain_txscript (params_on testnet) script 144

build_htlc_refund_tx-Locks_example :
    (total_out tx_lib (get_or refund).outputs + htlc_refund_fee 2 ≡ 100000)
    × ((get_or refund).version ≡ 2)
    × ((get_or refund).sequence ≡ 144)
    × (0 < 144)
    × (s : List ℕ) × ((get_or refund).witness ≡ build_htlc_refund_witness s script)
unfolding build_htlc_refund_tx klingdex.Chain.get
build_htlc_refund_tx-Locks_example =
    build_htlc_refund_tx-Locks tx_lib plain_txscript (params_on testnet) script 144
      {tx = get_or refund} refl
