-- ===== src/Swap/HtlcScript.antt =====
-- internal/swap/htlc_script.go: the HTLC script, built and parsed, and the witnesses that spend it.
pub mod RoundTrip
use Prim.Native.Nat.{bit_or}
use klingdex.Prelude.{
  ℕ, ◌+◌, ◌*◌, ◌%◌, ◌^◌, ◌≤◌, ◌<◌, Bool, true, false, not, ◌&&◌, ◌≡◌, refl, Option, none, some,
  List, [], ◌∷◌, arith, leb, ◌==◌, if◌then◌else◌, length, Result, ok, err, ◌>>=◌, ◌>>◌, guard,
}
use klingdex.Swap.Txscript.{Item, op, push, int, Token, Txscript}

pub data ScriptError : Type 0 where
  bad_secret_hash bad_receiver bad_sender zero_timeout timeout_too_large builder_failed :
      ScriptError
  unexpected_token : ScriptError

-- Bitcoin's opcodes, as txscript names them.
abbrev pub op_if : ℕ
op_if = 0x63

abbrev pub op_else : ℕ
op_else = 0x67

abbrev pub op_endif : ℕ
op_endif = 0x68

abbrev pub op_drop : ℕ
op_drop = 0x75

abbrev pub op_equalverify : ℕ
op_equalverify = 0x88

abbrev pub op_sha256 : ℕ
op_sha256 = 0xa8

abbrev pub op_checksig : ℕ
op_checksig = 0xac

abbrev pub op_checksequenceverify : ℕ
op_checksequenceverify = 0xb2

-- The calls of the builder in `BuildHTLCScript`.
abbrev pub htlc_items : List ℕ → List ℕ → List ℕ → ℕ → List Item
htlc_items secret_hash receiver sender timeout =
    op op_if
    ∷ op op_sha256
    ∷ push secret_hash
    ∷ op op_equalverify
    ∷ push receiver
    ∷ op op_checksig
    ∷ op op_else
    ∷ int timeout
    ∷ op op_checksequenceverify
    ∷ op op_drop
    ∷ push sender
    ∷ op op_checksig
    ∷ op op_endif
    ∷ []

abbrev pub of_option : {E A : Type 0} → E → Option A → Result E A
of_option e none = err e
of_option e (some a) = ok a

-- What `ParseHTLCScript` returns.
pub record HtlcParts : Type 0 where
  pub secret_hash : List ℕ
  pub receiver_pub_key : List ℕ
  pub sender_pub_key : List ℕ
  pub timeout_blocks : ℕ

-- `timeoutBlocks |= uint32(data[i]) << (8 * i)` over the bytes from index `i`.
read_bytes : List ℕ → ℕ → ℕ → ℕ
read_bytes [] i acc = acc
read_bytes (b ∷ bs) i acc = read_bytes bs (i + 1) (bit_or acc (b * 2 ^ (8 * i) % 2 ^ 32))

-- The witness stacks, bottom first.
unfoldable pub build_htlc_claim_witness : List ℕ → List ℕ → List ℕ → List (List ℕ)
build_htlc_claim_witness signature secret script = signature ∷ secret ∷ (1 ∷ []) ∷ script ∷ []

unfoldable pub build_htlc_refund_witness : List ℕ → List ℕ → List (List ℕ)
build_htlc_refund_witness signature script = signature ∷ [] ∷ script ∷ []

module _ (t : Txscript) where
  open t use {Tokenizer, script, make, next, is_small_int, as_small_int}

  unfoldable pub build_htlc_script : List ℕ → List ℕ → List ℕ → ℕ → Result ScriptError (List ℕ)
  build_htlc_script secret_hash receiver sender timeout = do
    guard (length secret_hash == 32) bad_secret_hash
    guard (length receiver == 33) bad_receiver
    guard (length sender == 33) bad_sender
    guard (not (timeout == 0)) zero_timeout
    guard (leb timeout 0xffff) timeout_too_large
    of_option builder_failed (script (htlc_items secret_hash receiver sender timeout))

  next_token : Tokenizer → Result ScriptError (Token × Tokenizer)
  next_token s = of_option unexpected_token (next s)

  -- `!tokenizer.Next() || tokenizer.Opcode() != o`
  expect_op : ℕ → Tokenizer → Result ScriptError Tokenizer
  unfolding next_token
  expect_op o s = do (k, s') ← next_token s; guard (k.opcode == o) unexpected_token; ok s'

  expect_push : ℕ → ScriptError → Tokenizer → Result ScriptError (List ℕ × Tokenizer)
  unfolding next_token
  expect_push n e s = do (k, s') ← next_token s; guard (length k.pushed == n) e; ok (k.pushed, s')

  timeout_of : Token → Result ScriptError ℕ
  timeout_of k =
      if is_small_int k.opcode
      then ok (as_small_int k.opcode)
      else (if length k.pushed == 0 then err unexpected_token else ok (read_bytes k.pushed 0 0))

  pub parse_htlc_script : List ℕ → Result ScriptError HtlcParts
  parse_htlc_script bytes = do
    s ← expect_op op_if (make bytes)
    s ← expect_op op_sha256 s
    (secret_hash, s) ← expect_push 32 bad_secret_hash s
    s ← expect_op op_equalverify s
    (receiver, s) ← expect_push 33 bad_receiver s
    s ← expect_op op_checksig s
    s ← expect_op op_else s
    (k, s) ← next_token s
    timeout ← timeout_of k
    s ← expect_op op_checksequenceverify s
    s ← expect_op op_drop s
    (sender, s) ← expect_push 33 bad_sender s
    s ← expect_op op_checksig s
    s ← expect_op op_endif s
    ok (record {
      secret_hash = secret_hash;
      receiver_pub_key = receiver;
      sender_pub_key = sender;
      timeout_blocks = timeout;
    })
