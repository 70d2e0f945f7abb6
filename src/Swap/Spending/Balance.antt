-- ===== src/Swap/Spending/Balance.antt =====
-- internal/swap/tx.go: what the claim and the refund transactions pay out, and how their inputs are
-- locked.
mod Tests
use klingdex.Prelude.{
  ℕ, ◌+◌, ◌-◌, ◌*◌, ◌%◌, ◌^◌, ◌<◌, String, Bool, true, false, ◌&&◌, not, ◌≡◌, Option, none, some,
  List, [], ◌∷◌, ◌++◌, ltb, leb, ◌==◌, if◌then◌else◌, length, str_eq, Result, ok, ◌>>=◌, ◌>>◌,
  guard, >>=-eq-ok, ok-injective, arith, sym, ap, ◌∙◌,
}
use klingdex.Config.DaoAddresses.{get_dao_address, get_dao_address_main}
use klingdex.Chain
use klingdex.Chain.{Network, Params}
use klingdex.Swap.Crypto.{Crypto}
use klingdex.Swap.Txscript.{Txscript, op, push}
use klingdex.Swap.HtlcScript.{of_option, build_htlc_claim_witness, build_htlc_refund_witness}
use klingdex.Swap.Taproot.{TaprootScriptTree, script_pub_key, build_tree_refund_witness}
use klingdex.Swap.Spending.{
  SpendError, SpendTx, SpendParams, TxLib, no_key, no_script, bad_secret, zero_timeout,
  insufficient_funds, invalid_address, signing_failed, u64, sub_u64, pays_dao, claim_fee,
  htlc_refund_fee, build_htlc_claim_tx, build_htlc_refund_tx, find_funding, dao_outputs, unsigned,
  witness_script,
}

module _ {c : Crypto} (x : TxLib c) where
  open x use {parse_tx_id, to_script, ecdsa, schnorr}

  unfoldable pub total_out : List (List ℕ × ℕ) → ℕ
  total_out [] = 0
  total_out ((s, n) ∷ os) = n + total_out os

  dao_outputs-total :
      (b : Bool) (n : Params) (fee : ℕ) (address : String) {os : List (List ℕ × ℕ)} (dest : List ℕ)
      (amount : ℕ)
      → dao_outputs x b n fee address ≡ ok os
      → total_out (os ++ ((dest, amount) ∷ [])) ≡ amount + (if b then fee else 0)
  unfolding dao_outputs total_out
  dao_outputs-total false n fee address {os} dest amount h =
      rw (sym (ok-injective [] os h)) (omega arith)
  dao_outputs-total true n fee address {os} dest amount h =
      let (s, hs, h) = >>=-eq-ok (of_option invalid_address (to_script n address)) _ h in
      rw (sym (ok-injective ((s, fee) ∷ []) os h)) (omega arith)

  claim-sum :
      (b : Bool) (funding cost fee total : ℕ) {u : Unit {0}}
      → total ≡ sub_u64 (sub_u64 funding cost) fee + (if b then fee else 0)
      → cost + fee < 2 ^ 64
      → Path
          (Result SpendError (Unit {0}))
          (guard (not (leb funding (u64 (cost + fee)))) insufficient_funds)
          (ok u)
      → total + cost + (if b then 0 else fee) ≡ funding
  claim-sum true funding cost fee total e small h = ground arith
  claim-sum false funding cost fee total e small h = ground arith

  refund-sum :
      (funding fee total : ℕ) {u : Unit {0}}
      → total ≡ funding - fee + 0
      → Path
          (Result SpendError (Unit {0}))
          (guard (not (leb funding fee)) insufficient_funds)
          (ok u)
      → total + fee ≡ funding
  refund-sum funding fee total e h = ground arith

  refund-positive :
      (timeout : ℕ) {u : Unit {0}}
      → Path (Result SpendError (Unit {0})) (guard (not (timeout == 0)) zero_timeout) (ok u)
      → 0 < timeout
  refund-positive timeout h = ground arith

  secret-length :
      (secret : List ℕ) {u : Unit {0}}
      → Path (Result SpendError (Unit {0})) (guard (length secret == 32) bad_secret) (ok u)
      → length secret ≡ 32
  secret-length secret h = ground arith

  -- From the outputs on.
  claim-tail :
      (t : Txscript) (p : SpendParams c) (script secret : List ℕ) (address : String) (fee : ℕ)
      (n : Params) (hash : List ℕ) (key : c.PrivKey) (dest : List ℕ) (dao : List (List ℕ × ℕ))
      {tx : SpendTx} {u : Unit {0}}
      → dao_outputs x (pays_dao fee address) n fee address ≡ ok dao
      → claim_fee p.fee_rate fee address + fee < 2 ^ 64
      → Path
          (Result SpendError (Unit {0}))
          (guard
            (not (leb p.funding_amount (u64 (claim_fee p.fee_rate fee address + fee))))
            insufficient_funds)
          (ok u)
      → let draft = unsigned x 1 hash p 0xffffffff (
          dao
          ++ ((dest, sub_u64 (sub_u64 p.funding_amount (claim_fee p.fee_rate fee address)) fee)
              ∷ [])) in
        (of_option signing_failed
              (ecdsa key (witness_script x t script) script p.funding_amount draft)
            >>= λ s.
                ok (record draft {
                  witness = build_htlc_claim_witness (s ++ (1 ∷ [])) secret script;
                }))
          ≡ ok tx
        → (total_out tx.outputs
              + claim_fee p.fee_rate fee address
              + (if pays_dao fee address then 0 else fee)
            ≡ p.funding_amount)
          × (tx.sequence ≡ 0xffffffff)
          × (s : List ℕ) × (tx.witness ≡ build_htlc_claim_witness s secret script)
  unfolding unsigned
  claim-tail t p script secret address fee n hash key dest dao {tx} hd small hg h =
      let cost = claim_fee p.fee_rate fee address in
      let amount = sub_u64 (sub_u64 p.funding_amount cost) fee in
      let draft = unsigned x 1 hash p 0xffffffff (dao ++ ((dest, amount) ∷ [])) in
      let (s, _, h) =
        >>=-eq-ok
          (of_option signing_failed
            (ecdsa key (witness_script x t script) script p.funding_amount draft))
          (λ s.
            ok (record draft { witness = build_htlc_claim_witness (s ++ (1 ∷ [])) secret script }))
          h in
      let final = record draft {
        witness = build_htlc_claim_witness (s ++ (1 ∷ [])) secret script;
      } in
      let e : final ≡ tx = ok-injective final tx h in
      let total = dao_outputs-total (pays_dao fee address) n fee address dest amount hd in
      (
        claim-sum (pays_dao fee address) p.funding_amount cost fee (total_out tx.outputs)
            (ap (λ z. total_out z.outputs) (sym e) ∙ total) small hg,
        ap (λ z. z.sequence) (sym e),
        s ++ (1 ∷ []),
        ap (λ z. z.witness) (sym e),
      )

  -- A claim transaction pays out the whole escrow but for the fee, and but for the DAO fee where it
  -- has no address to go to, if the fee and the DAO fee together fit 64 bits. Its input
  -- is final, and the secret, of 32 bytes, and the script stand in its witness.
  pub build_htlc_claim_tx-Balance :
      (t : Txscript) (p : SpendParams c) (script secret : List ℕ) (address : String) (fee : ℕ)
      {tx : SpendTx}
      → build_htlc_claim_tx x t p script secret address fee ≡ ok tx
      → claim_fee p.fee_rate fee address + fee < 2 ^ 64
      → (total_out tx.outputs
            + claim_fee p.fee_rate fee address
            + (if pays_dao fee address then 0 else fee)
          ≡ p.funding_amount)
        × (tx.sequence ≡ 0xffffffff)
        × (length secret ≡ 32)
        × (s : List ℕ) × (tx.witness ≡ build_htlc_claim_witness s secret script)
  unfolding build_htlc_claim_tx unsigned
  build_htlc_claim_tx-Balance t p script secret address fee {tx} h small =
      let cost = claim_fee p.fee_rate fee address in
      let (key, hk, h) = >>=-eq-ok (of_option no_key p.priv_key) _ h in
      let (_, _, h) = >>=-eq-ok (guard (not (length script == 0)) no_script) _ h in
      let (_, hs, h) = >>=-eq-ok (guard (length secret == 32) bad_secret) _ h in
      let (found, _, h) = >>=-eq-ok (find_funding x p) _ h in
      let (_, hg, h) =
        >>=-eq-ok (guard (not (leb p.funding_amount (u64 (cost + fee)))) insufficient_funds) _ h in
      let (dao, hd, h) = >>=-eq-ok (dao_outputs x (pays_dao fee address) found.0 fee address) _ h in
      let (dest, _, h) =
        >>=-eq-ok (of_option invalid_address (to_script found.0 p.dest_address)) _ h in
      let (a, b, w, d) =
        claim-tail t p script secret address fee found.0 found.1 key dest dao hd small hg h in
      (a, b, secret-length secret hs, w, d)

  -- A refund of an HTLC pays out the whole escrow but for the fee, has version 2, the version from
  -- which relative timelocks hold, and its input is locked for the given number of blocks.
  pub build_htlc_refund_tx-Locks :
      (t : Txscript) (p : SpendParams c) (script : List ℕ) (timeout : ℕ) {tx : SpendTx}
      → build_htlc_refund_tx x t p script timeout ≡ ok tx
      → (total_out tx.outputs + htlc_refund_fee p.fee_rate ≡ p.funding_amount)
        × (tx.version ≡ 2)
        × (tx.sequence ≡ timeout)
        × (0 < timeout)
        × (s : List ℕ) × (tx.witness ≡ build_htlc_refund_witness s script)
  unfolding build_htlc_refund_tx unsigned total_out
  build_htlc_refund_tx-Locks t p script timeout {tx} h =
      let (key, hk, h) = >>=-eq-ok (of_option no_key p.priv_key) _ h in
      let (_, _, h) = >>=-eq-ok (guard (not (length script == 0)) no_script) _ h in
      let (_, ht, h) = >>=-eq-ok (guard (not (timeout == 0)) zero_timeout) _ h in
      let (found, _, h) = >>=-eq-ok (find_funding x p) _ h in
      let (_, hg, h) =
        >>=-eq-ok
          (guard (not (leb p.funding_amount (htlc_refund_fee p.fee_rate))) insufficient_funds) _
          h in
      let (dest, _, h) =
        >>=-eq-ok (of_option invalid_address (to_script found.0 p.dest_address)) _ h in
      let draft =
        unsigned x 2 found.1 p timeout
          ((dest, p.funding_amount - htlc_refund_fee p.fee_rate) ∷ []) in
      let (s, _, h) =
        >>=-eq-ok
          (of_option signing_failed
            (ecdsa key (witness_script x t script) script p.funding_amount draft))
          _ h in
      let final = record draft { witness = build_htlc_refund_witness (s ++ (1 ∷ [])) script } in
      let e : final ≡ tx = ok-injective final tx h in
      (
        refund-sum p.funding_amount (htlc_refund_fee p.fee_rate) (total_out tx.outputs)
            (ap (λ z. total_out z.outputs) (sym e)) hg,
        ap (λ z. z.version) (sym e),
        ap (λ z. z.sequence) (sym e),
        refund-positive timeout ht,
        s ++ (1 ∷ []),
        ap (λ z. z.witness) (sym e),
      )

  no_dao_address : (fee : ℕ) → pays_dao fee "" ≡ false
  unfolding pays_dao
  no_dao_address fee = ground arith

  -- On the main network no DAO address is configured: a claim still keeps the DAO fee from the
  -- claimer, but pays it to nobody, so that it is left to the miners with the fee.
  pub mainnet_claim-Unpaid :
      (t : Txscript) (p : SpendParams c) (script secret : List ℕ) (fee : ℕ) {tx : SpendTx}
      → build_htlc_claim_tx x t p script secret (get_dao_address false p.symbol) fee ≡ ok tx
      → claim_fee p.fee_rate fee "" + fee < 2 ^ 64
      → total_out tx.outputs + claim_fee p.fee_rate fee "" + fee ≡ p.funding_amount
  mainnet_claim-Unpaid t p script secret fee h small =
      let h = rw (get_dao_address_main p.symbol) at h in
      rw (no_dao_address fee) at (build_htlc_claim_tx-Balance t p script secret "" fee h small).0
