-- ===== src/Swap/HtlcScript/RoundTrip.antt =====
-- What `BuildHTLCScript` accepts, and that `ParseHTLCScript` reads back what it built.
mod Tests
use Prim.Native.Nat.{bit_or}
use klingdex.Prelude.{
  ℕ, ◌+◌, ◌-◌, ◌*◌, ◌/◌, ◌%◌, ◌^◌, ◌≤◌, ◌<◌, Bool, true, false, not, ◌≡◌, refl, Option, some, none,
  List, [], ◌∷◌, map, arith, ltb, leb, ◌==◌, if◌then◌else◌, length, All, Result, ok, err,
  bit_or-disjoint, zero-bit_or, ◌↔◌,
}
use klingdex.Swap.Txscript.{
  Item, op, push, int, IsByte, IsPlain, Token, token, token_of, script_num, Reads, Txscript,
}
use klingdex.Swap.HtlcScript.{
  ScriptError, bad_secret_hash, bad_receiver, bad_sender, HtlcParts, htlc_items, read_bytes,
  build_htlc_script, expect_op, expect_push, next_token, timeout_of, parse_htlc_script, of_option,
}

first_byte : (a : ℕ) → a < 256 → bit_or 0 (a * 1 % 2 ^ 32) ≡ a
first_byte a h = rw zero-bit_or (omega arith)

second_byte : (a b : ℕ) → a < 256 → b < 256 → bit_or a (b * 256 % 2 ^ 32) ≡ a + b * 256
second_byte a b ha hb =
    let small : b * 256 % 2 ^ 32 ≡ b * 256 = omega arith in rw small (bit_or-disjoint 8 a b ha)

third_byte : (a : ℕ) → a < 65536 → bit_or a 0 ≡ a
third_byte a h = omega (arith, bit_or-disjoint 16 a 0 h)

-- The bytes of a script number give the number back.
read_bytes-script_num : (n : ℕ) → n < 65536 → read_bytes (script_num n) 0 0 ≡ n
unfolding read_bytes
read_bytes-script_num n h = ground (
  arith,
  first_byte n,
  first_byte (n % 256) (omega arith),
  second_byte (n % 256) (n / 256) (omega arith) (omega arith),
  third_byte n h,
)

htlc_items-IsPlain :
    (h r s : List ℕ) (n : ℕ)
    → (length h ≡ 32) × All IsByte h
    → (length r ≡ 33) × All IsByte r
    → (length s ≡ 33) × All IsByte s
    → (0 < n) × (n < 65536)
    → All IsPlain (htlc_items h r s n)
htlc_items-IsPlain h r s n (lh, bh) (lr, br) (ls, bs) hn = (
  omega arith,
  (
    omega arith,
    (
      ((omega arith), (omega arith), bh),
      (
        omega arith,
        (
          ((omega arith), (omega arith), br),
          (
            omega arith,
            (
              omega arith,
              (
                hn,
                (
                  omega arith,
                  (
                    omega arith,
                    (((omega arith), (omega arith), bs), (omega arith, (omega arith, tt))),
                  ),
                ),
              ),
            ),
          ),
        ),
      ),
    ),
  ),
)

module _ (t : Txscript) where
  open t use {Tokenizer, script, make, next, is_small_int_lem, as_small_int_lem, script_reads}

  expect_op-reads :
      (o : ℕ) (s s' : Tokenizer) → next s ≡ some (token o [], s') → expect_op t o s ≡ ok s'
  unfolding expect_op
  expect_op-reads o s s' e = rw e (ground arith)

  expect_push-reads :
      (n : ℕ) (x : ScriptError) (d : List ℕ) (s s' : Tokenizer)
      → next s ≡ some (token (length d) d, s')
      → length d ≡ n
      → expect_push t n x s ≡ ok (d, s')
  unfolding expect_push
  expect_push-reads n x d s s' e l = rw e (ground arith)

  timeout_of-token : (n : ℕ) → 0 < n → n < 65536 → timeout_of t (token_of (int n)) ≡ ok n
  unfolding timeout_of
  timeout_of-token n pos small = ground (
    arith,
    is_small_int_lem (80 + n),
    is_small_int_lem (length (script_num n)),
    as_small_int_lem (80 + n),
    read_bytes-script_num n small,
  )

  next_token-reads :
      (k : Token) (s s' : Tokenizer) → next s ≡ some (k, s') → next_token t s ≡ ok (k, s')
  unfolding next_token
  next_token-reads k s s' e = rw e

  parse-Reads :
      (h r s : List ℕ) (n : ℕ) (bytes : List ℕ)
      → length h ≡ 32
      → length r ≡ 33
      → length s ≡ 33
      → 0 < n
      → n < 65536
      → Reads Tokenizer next (make bytes) (map token_of (htlc_items h r s n))
      → parse_htlc_script t bytes
        ≡ ok (record {
          secret_hash = h;
          receiver_pub_key = r;
          sender_pub_key = s;
          timeout_blocks = n;
        })
  unfolding parse_htlc_script
  parse-Reads h r s n bytes lh lr ls pos small
        (
          s1,
          e1,
          (
            s2,
            e2,
            (
              s3,
              e3,
              (
                s4,
                e4,
                (
                  s5,
                  e5,
                  (
                    s6,
                    e6,
                    (
                      s7,
                      e7,
                      (s8, e8, (s9, e9, (s10, e10, (s11, e11, (s12, e12, (s13, e13, done)))))),
                    ),
                  ),
                ),
              ),
            ),
          ),
        ) =
      rw (
        expect_op-reads _ (make bytes) s1 e1,
        expect_op-reads _ s1 s2 e2,
        expect_push-reads 32 bad_secret_hash h s2 s3 e3 lh,
        expect_op-reads _ s3 s4 e4,
        expect_push-reads 33 bad_receiver r s4 s5 e5 lr,
        expect_op-reads _ s5 s6 e6,
        expect_op-reads _ s6 s7 e7,
        next_token-reads _ s7 s8 e8,
        timeout_of-token n pos small,
        expect_op-reads _ s8 s9 e9,
        expect_op-reads _ s9 s10 e10,
        expect_push-reads 33 bad_sender s s10 s11 e11 ls,
        expect_op-reads _ s11 s12 e12,
        expect_op-reads _ s12 s13 e13,
      )

  build_htlc_script-of_script :
      (h r s : List ℕ) (n : ℕ) (bytes : List ℕ)
      → length h ≡ 32
      → length r ≡ 33
      → length s ≡ 33
      → 0 < n
      → n < 65536
      → script (htlc_items h r s n) ≡ some bytes
      → build_htlc_script t h r s n ≡ ok bytes
  unfolding build_htlc_script
  build_htlc_script-of_script h r s n bytes lh lr ls pos small e = rw e (ground arith)

  -- Every hash of 32 bytes, two keys of 33 bytes and a timeout of 1 to 65535 blocks make a script,
  -- and parsing it gives the four of them back.
  pub parse-build_htlc_script :
      (h r s : List ℕ) (n : ℕ)
      → (length h ≡ 32) × All IsByte h
      → (length r ≡ 33) × All IsByte r
      → (length s ≡ 33) × All IsByte s
      → (0 < n) × (n < 65536)
      → (bytes : List ℕ) × (build_htlc_script t h r s n ≡ ok bytes)
        × (parse_htlc_script t bytes
            ≡ ok (record {
              secret_hash = h;
              receiver_pub_key = r;
              sender_pub_key = s;
              timeout_blocks = n;
            }))
  parse-build_htlc_script h r s n hh hr hs hn =
      let (bytes, built, reads) =
        script_reads (htlc_items h r s n) (htlc_items-IsPlain h r s n hh hr hs hn) (omega arith) in
      (
        bytes,
        build_htlc_script-of_script h r s n bytes hh.0 hr.0 hs.0 hn.0 hn.1 built,
        parse-Reads h r s n bytes hh.0 hr.0 hs.0 hn.0 hn.1 reads,
      )

  -- A script is built exactly if the hash has 32 bytes, each key 33, the timeout lies between 1
  -- and 65535 blocks and the builder gives the script of these four.
  pub build_htlc_script_iff :
      (h r s : List ℕ) (n : ℕ) (bytes : List ℕ)
      → (build_htlc_script t h r s n ≡ ok bytes) ↔ (
          (length h ≡ 32)
          × (length r ≡ 33)
          × (length s ≡ 33)
          × (0 < n)
          × (n < 65536)
          × (script (htlc_items h r s n) ≡ some bytes))
  unfolding build_htlc_script
  build_htlc_script_iff h r s n bytes = (λ e. ground arith, λ e. ground arith)

  -- Whatever bytes are parsed, a success gives a hash of 32 bytes and two keys of 33.
  pub parse_htlc_script_lengths :
      (bytes : List ℕ) {p : HtlcParts}
      → parse_htlc_script t bytes ≡ ok p
      → (length p.secret_hash ≡ 32)
        × (length p.receiver_pub_key ≡ 33)
        × (length p.sender_pub_key ≡ 33)
  unfolding parse_htlc_script expect_op expect_push next_token timeout_of
  parse_htlc_script_lengths bytes e = (ground arith, ground arith, ground arith)
