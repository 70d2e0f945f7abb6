-- ===== src/Swap/Txscript.antt =====
-- The script builder and tokenizer of btcd's txscript package, which internal/swap/htlc_script.go
-- and script.go call: an interface, with what those files rely on.
pub mod Plain
use klingdex.Prelude.{
  ℕ, ◌+◌, ◌-◌, ◌/◌, ◌%◌, ◌≤◌, ◌<◌, Bool, ◌||◌, ◌&&◌, ◌≡◌, Option, none, some, List, [], ◌∷◌, map,
  ltb, leb, ◌==◌, if◌then◌else◌, length, All,
}

-- The calls of a builder: `AddOp`, `AddData` and `AddInt64`.
pub data Item : Type 0 where
  op : ℕ → Item
  push : List ℕ → Item
  int : ℕ → Item

-- What the tokenizer shows of one instruction: `Opcode()` and `Data()`.
pub record Token : Type 0 where
  pub opcode : ℕ
  pub pushed : List ℕ

abbrev pub token : ℕ → List ℕ → Token
token o d = record { opcode = o; pushed = d }

-- A script number from 17 to 65535: little endian, with room for a sign bit.
abbrev pub script_num : ℕ → List ℕ
script_num n =
    if ltb n 128
    then n ∷ []
    else (if ltb n 32768 then n % 256 ∷ n / 256 ∷ [] else n % 256 ∷ n / 256 ∷ 0 ∷ [])

-- The canonical instruction for a call of the builder.
abbrev pub token_of : Item → Token
token_of (op o) = token o []
token_of (push d) = token (length d) d
token_of (int n) =
    if leb n 16 then token (80 + n) [] else token (length (script_num n)) (script_num n)

abbrev pub IsByte : ℕ → Type 0
IsByte b = b < 256

-- The calls that the two files make: opcodes above the small integers, pushes that take one length
-- byte, and positive numbers of 16 bits.
abbrev pub IsPlain : Item → Type 0
IsPlain (op o) = (96 < o) × (o < 256)
IsPlain (push d) = (2 ≤ length d) × (length d ≤ 75) × All IsByte d
IsPlain (int n) = (0 < n) × (n < 65536)

-- Repeated `Next()` shows the given tokens and then stops.
abbrev pub Reads : (T : Type 0) → (T → Option (Token × T)) → T → List Token → Type 0
Reads T next t [] = next t ≡ none
Reads T next t (k ∷ ks) = (t' : T) × (next t ≡ some (k, t')) × Reads T next t' ks

pub record Txscript : Type 1 where
  pub Tokenizer : Type 0
  -- `Script()` after the calls; `none` is its error.
  pub script : List Item → Option (List ℕ)
  pub make : List ℕ → Tokenizer
  -- `none` where `Next()` returns false.
  pub next : Tokenizer → Option (Token × Tokenizer)
  pub is_small_int : ℕ → Bool
  pub as_small_int : ℕ → ℕ
  -- A short script of plain calls is built, and the tokenizer reads it back.
  pub script_reads :
      (items : List Item)
      → All IsPlain items
      → length items ≤ 100
      → (bytes : List ℕ) × (script items ≡ some bytes)
        × Reads Tokenizer next (make bytes) (map token_of items)
  -- OP_0 and OP_1 to OP_16.
  pub is_small_int_lem : (o : ℕ) → is_small_int o ≡ (o == 0 || (leb 81 o && leb o 96))
  pub as_small_int_lem : (o : ℕ) → 81 ≤ o → o ≤ 96 → as_small_int o ≡ o - 80
