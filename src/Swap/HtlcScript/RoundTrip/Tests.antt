-- ===== src/Swap/HtlcScript/RoundTrip/Tests.antt =====
-- A script over the plain tokenizer.
use klingdex.Prelude.{ℕ, ◌≡◌, List, arith, ok}
use klingdex.Swap.HtlcScript.{build_htlc_script, parse_htlc_script}
use klingdex.Prelude.{replicate, List, length-replicate}
use klingdex.Swap.Txscript.Plain.{plain_txscript}
use klingdex.Swap.Crypto.Constant.{All-replicate}
use klingdex.Swap.HtlcScript.RoundTrip.{parse-build_htlc_script}

abbrev hash : List ℕ
hash = replicate 32 7

abbrev receiver : List ℕ
receiver = replicate 33 2

abbrev sender : List ℕ
sender = replicate 33 3

parse-build_htlc_script_example :
    (bytes : List ℕ) × (build_htlc_script plain_txscript hash receiver sender 144 ≡ ok bytes)
    × (parse_htlc_script plain_txscript bytes
        ≡ ok (record {
          secret_hash = hash;
          receiver_pub_key = receiver;
          sender_pub_key = sender;
          timeout_blocks = 144;
        }))
parse-build_htlc_script_example =
    parse-build_htlc_script plain_txscript hash receiver sender 144
      (length-replicate {A = ℕ} 32 7, All-replicate 32 7 (omega arith))
      (length-replicate {A = ℕ} 33 2, All-replicate 33 2 (omega arith))
      (length-replicate {A = ℕ} 33 3, All-replicate 33 3 (omega arith)) (omega arith, omega arith)
