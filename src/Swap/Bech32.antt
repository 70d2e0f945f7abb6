-- ===== src/Swap/Bech32.antt =====
-- internal/swap/musig2.go: the bech32m encoding of a Taproot output key. A byte is a number below
-- 256; uint32 values are cut to 32 bits where a shift may leave them.
use Prim.Native.Nat.{bit_or, bit_xor}
use Prim.Native.Char.{code}
use Prim.Native.String.{[] as no_char, ◌∷◌ as push_char, ◌++◌ as join, char_at}
use klingdex.Prelude.{
  ℕ, zero, suc, ◌+◌, ◌-◌, ◌*◌, ◌/◌, ◌%◌, ◌^◌, ◌<◌, String, Bool, true, ◌||◌, not, ◌≡◌, refl, Option,
  none, some, List, [], ◌∷◌, ◌++◌, map, arith, ltb, leb, ◌==◌, if◌then◌else◌, All, All-append,
  Bool-cases, lt→ltb, inl, inr,
}

-- `for bits >= toBits`: the full groups, and what is left of `bits`. A round takes at least one
-- bit, so as many rounds as there are bits are enough.
drain : ℕ → ℕ → ℕ → ℕ → List ℕ × ℕ
drain zero acc bits to = ([], bits)
drain (suc n) acc bits to =
    let rest = drain n acc (bits - to) to in
    if leb to bits then (acc / 2 ^ (bits - to) % 2 ^ to ∷ rest.0, rest.1) else ([], bits)

-- The loop over the bytes: the groups, the accumulator and the number of bits in it.
convert_loop : List ℕ → ℕ → ℕ → ℕ → ℕ → List ℕ × (ℕ × ℕ)
unfolding drain
convert_loop [] from to acc bits = ([], (acc, bits))
convert_loop (b ∷ bs) from to acc bits =
    let acc' = bit_or (acc * 2 ^ from % 2 ^ 32) b in
    let out = drain (bits + from) acc' (bits + from) to in
    let rest = convert_loop bs from to acc' out.1 in (out.0 ++ rest.0, rest.1)

-- `none` is the error for bad padding.
unfoldable pub bech32_convert_bits : List ℕ → ℕ → ℕ → Bool → Option (List ℕ)
unfolding convert_loop
bech32_convert_bits bytes from to pad =
    let out = convert_loop bytes from to 0 0 in
    let acc = out.1.0 in
    let bits = out.1.1 in
    let last = acc * 2 ^ (to - bits) % 2 ^ 32 % 2 ^ to in
    if pad
    then some (if ltb 0 bits then out.0 ++ (last ∷ []) else out.0)
    else (if leb from bits || not (last == 0) then none else some out.0)

-- The code points of a string.
unfoldable pub codes : String → List ℕ
codes no_char = []
codes (push_char c s) = code c ∷ codes s

unfoldable pub bech32_hrp_expand : String → List ℕ
unfolding codes
bech32_hrp_expand hrp =
    map (λ c. c / 2 ^ 5 % 256) (codes hrp) ++ (0 ∷ map (λ c. c % 32 % 256) (codes hrp))

abbrev generators : List ℕ
generators = 0x3b6a57b2 ∷ 0x26508e6d ∷ 0x1ea119fa ∷ 0x3d4233dd ∷ 0x2a1462b3 ∷ []

-- The inner loop: a generator for each set bit of `b`, the lowest first.
mix : List ℕ → ℕ → ℕ → ℕ
mix [] b chk = chk
mix (g ∷ gs) b chk = mix gs (b / 2) (if b % 2 == 1 then bit_xor chk g else chk)

polymod_loop : List ℕ → ℕ → ℕ
unfolding mix
polymod_loop [] chk = chk
polymod_loop (v ∷ vs) chk =
    polymod_loop vs (mix generators (chk / 2 ^ 25) (bit_xor (chk % 2 ^ 25 * 2 ^ 5) v))

unfoldable pub bech32_polymod : List ℕ → ℕ
unfolding polymod_loop
bech32_polymod values = polymod_loop values 1

abbrev bech32m_const : ℕ
bech32m_const = 0x2bc830a3

abbrev bech32_charset : String
bech32_charset = "qpzry9x8gf2tvdw0s3jn54khce6mua7l"

abbrev six_zeros : List ℕ
six_zeros = 0 ∷ 0 ∷ 0 ∷ 0 ∷ 0 ∷ 0 ∷ []

-- The six groups of five bits of the checksum, the highest first.
unfoldable pub bech32_checksum : String → List ℕ → List ℕ
bech32_checksum hrp bytes =
    let polymod =
      bit_xor (bech32_polymod ((bech32_hrp_expand hrp ++ bytes) ++ six_zeros)) bech32m_const in
    map (λ i. polymod / 2 ^ (5 * (5 - i)) % 32) (0 ∷ 1 ∷ 2 ∷ 3 ∷ 4 ∷ 5 ∷ [])

-- `result += string(bech32Charset[d])`; an index of 32 or more would stop the program, and shows
-- here as `none`.
encode_chars : List ℕ → Option String
encode_chars [] = some ""
encode_chars (d ∷ ds) = elim (encode_chars ds) [
  | none ↦ none
  | some s ↦ if ltb d 32 then some (push_char (char_at bech32_charset d) s) else none
]

unfoldable pub bech32m_encode : String → List ℕ → Option String
unfolding encode_chars
bech32m_encode hrp bytes = elim (encode_chars (bytes ++ bech32_checksum hrp bytes)) [
  | none ↦ none
  | some s ↦ some (join hrp (join "1" s))
]

abbrev pub IsGroup : ℕ → Type 0
IsGroup d = d < 32

drain-All : (n acc bits : ℕ) → All IsGroup (drain n acc bits 5).0
unfolding drain
drain-All zero acc bits = tt
drain-All (suc n) acc bits =
    let ih = drain-All n acc (bits - 5) in
    elim (Bool-cases (leb 5 bits)) [ inl e ↦ rw e (omega arith, ih) | inr e ↦ rw e tt ]

loop-All : (bs : List ℕ) (acc bits : ℕ) → All IsGroup (convert_loop bs 8 5 acc bits).0
unfolding convert_loop
loop-All [] acc bits = tt
loop-All (b ∷ bs) acc bits =
    All-append IsGroup _ _ (drain-All (bits + 8) _ (bits + 8)) (loop-All bs _ _)

-- With padding, a conversion to groups of five bits never fails, and every group is below 32.
pub convert_bits-All :
    (bytes : List ℕ)
    → (groups : List ℕ) × (bech32_convert_bits bytes 8 5 true ≡ some groups) × All IsGroup groups
unfolding bech32_convert_bits
convert_bits-All bytes =
    let out = convert_loop bytes 8 5 0 0 in
    let last = out.1.0 * 2 ^ (5 - out.1.1) % 2 ^ 32 % 2 ^ 5 in
    elim (Bool-cases (ltb 0 out.1.1)) [
      | inl e ↦ (
        out.0 ++ (last ∷ []),
        rw e refl,
        All-append IsGroup out.0 _ (loop-All bytes 0 0) (omega arith, tt),
      )
      | inr e ↦ (out.0, rw e refl, loop-All bytes 0 0)
    ]

encode_chars-some : (ds : List ℕ) → All IsGroup ds → (s : String) × (encode_chars ds ≡ some s)
unfolding encode_chars
encode_chars-some [] h = ("", refl)
encode_chars-some (d ∷ ds) (h, hs) =
    let (s, e) = encode_chars-some ds hs in
    (push_char (char_at bech32_charset d) s, rw (e, lt→ltb d 32 h) refl)

checksum-All : (hrp : String) (bytes : List ℕ) → All IsGroup (bech32_checksum hrp bytes)
unfolding bech32_checksum
checksum-All hrp bytes =
    (omega arith, (omega arith, (omega arith, (omega arith, (omega arith, (omega arith, tt))))))

-- Groups below 32 are encoded: no character is looked up past the end of the character set.
pub bech32m_encode-some :
    (hrp : String) (bytes : List ℕ)
    → All IsGroup bytes
    → (s : String) × (bech32m_encode hrp bytes ≡ some s)
unfolding bech32m_encode
bech32m_encode-some hrp bytes h =
    let (s, e) = encode_chars-some _ (All-append IsGroup bytes _ h (checksum-All hrp bytes)) in
    (join hrp (join "1" s), rw (bech32m_encode, e) refl)
