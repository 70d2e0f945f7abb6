-- ===== src/Swap/Txscript/Plain.antt =====
-- An instance of the interface to the script builder and tokenizer: an opcode is its own byte, a
-- push the bytes after their number. It shows that the interface's laws can hold.
use klingdex.Prelude.{
  ℕ, zero, suc, ◌+◌, ◌-◌, ◌≤◌, true, ◌&&◌, ◌||◌, ◌≡◌, refl, Option, none, some, List, [], ◌∷◌, ◌++◌,
  map, arith, leb, ◌==◌, if◌then◌else◌, length, take, take-length-append, All, Bool-cases, inl, inr,
}
use klingdex.Swap.Txscript.{
  Item, op, push, int, Token, token, token_of, script_num, IsPlain, Reads, Txscript,
}

abbrev drop : ℕ → List ℕ → List ℕ
drop zero bs = bs
drop (suc n) [] = []
drop (suc n) (b ∷ bs) = drop n bs

drop-length-append : (xs ys : List ℕ) → drop (length xs) (xs ++ ys) ≡ ys
drop-length-append [] ys = refl
drop-length-append (x ∷ xs) ys = drop-length-append xs ys

abbrev pub encode : Item → List ℕ
encode (op o) = o ∷ []
encode (push d) = length d ∷ d
encode (int n) = if leb n 16 then (80 + n) ∷ [] else length (script_num n) ∷ script_num n

abbrev pub encode_all : List Item → List ℕ
encode_all [] = []
encode_all (x ∷ xs) = encode x ++ encode_all xs

abbrev next_token : List ℕ → Option (Token × List ℕ)
next_token [] = none
next_token (b ∷ bs) =
    if leb b 75 then some (token b (take b bs), drop b bs) else some (token b [], bs)

next-pushed :
    (d rest : List ℕ)
    → length d ≤ 75
    → next_token (length d ∷ (d ++ rest)) ≡ some (token (length d) d, rest)
next-pushed d rest h =
    let small : leb (length d) 75 ≡ true = ground arith in
    rw (small, take-length-append d rest, drop-length-append d rest) refl

length-script_num : (n : ℕ) → length (script_num n) ≤ 75
length-script_num n = ground arith

next-encode :
    (x : Item) (rest : List ℕ) → IsPlain x → next_token (encode x ++ rest) ≡ some (token_of x, rest)
next-encode (op o) rest h = ground arith
next-encode (push d) rest (_, h, _) = next-pushed d rest h
next-encode (int n) rest h = elim (Bool-cases (leb n 16)) [
  | inl small ↦ rw small (ground arith)
  | inr large ↦ rw large (next-pushed (script_num n) rest (length-script_num n))
]

pub Reads-encode :
    (items : List Item)
    → All IsPlain items
    → Reads (List ℕ) next_token (encode_all items) (map token_of items)
Reads-encode [] h = refl
Reads-encode (x ∷ xs) (h, hs) = (encode_all xs, next-encode x (encode_all xs) h, Reads-encode xs hs)

abbrev pub plain_txscript : Txscript
plain_txscript = record {
  Tokenizer = List ℕ;
  script = λ items. some (encode_all items);
  make = λ bytes. bytes;
  next = next_token;
  is_small_int = λ o. o == 0 || (leb 81 o && leb o 96);
  as_small_int = λ o. o - 80;
  script_reads = λ items h _. (encode_all items, refl, Reads-encode items h);
  is_small_int_lem = λ o. refl;
  as_small_int_lem = λ o _ _. refl;
}
