-- ===== src/Helpers/Bytes.antt =====
-- pkg/helpers/bytes.go and the padding of pkg/helpers/hex.go. A byte slice is a list of numbers.
use klingdex.Prelude.{
  ℕ, ◌-◌, ◌≤◌, Bool, true, false, ◌≡◌, refl, ◌↔◌, List, [], ◌∷◌, ◌++◌, arith, ltb, leb, ◌==◌,
  if◌then◌else◌, length, replicate, length-append, length-replicate,
}

-- The three results of `CompareBytes`: -1, 0 and 1.
pub data Order : Type 0 where
  less equal greater : Order

-- The lengths decide where one slice is a prefix of the other.
unfoldable pub compare_bytes : List ℕ → List ℕ → Order
compare_bytes [] [] = equal
compare_bytes [] (b ∷ bs) = less
compare_bytes (a ∷ as') [] = greater
compare_bytes (a ∷ as') (b ∷ bs) =
    let rest = compare_bytes as' bs in if ltb a b then less else (if ltb b a then greater else rest)

-- `BytesEqual`; `bytes.Equal` and `ConstantTimeCompare` have the same result.
unfoldable pub bytes_equal : List ℕ → List ℕ → Bool
bytes_equal [] [] = true
bytes_equal [] (b ∷ bs) = false
bytes_equal (a ∷ as') [] = false
bytes_equal (a ∷ as') (b ∷ bs) = let rest = bytes_equal as' bs in if a == b then rest else false

unfoldable pub is_zero_bytes : List ℕ → Bool
is_zero_bytes [] = true
is_zero_bytes (b ∷ bs) = let rest = is_zero_bytes bs in if b == 0 then rest else false

unfoldable pub pad_left : List ℕ → ℕ → List ℕ
pad_left bs n = if leb n (length bs) then bs else replicate (n - length bs) 0 ++ bs

unfoldable pub pad_right : List ℕ → ℕ → List ℕ
pad_right bs n = if leb n (length bs) then bs else bs ++ replicate (n - length bs) 0

pub bytes_equal_sound : (xs ys : List ℕ) → bytes_equal xs ys ≡ true → xs ≡ ys
unfolding bytes_equal
bytes_equal_sound [] [] h = refl
bytes_equal_sound [] (y ∷ ys) h = cc
bytes_equal_sound (x ∷ xs) [] h = cc
bytes_equal_sound (x ∷ xs) (y ∷ ys) h = ground (arith, bytes_equal_sound xs ys)

pub bytes_equal_refl : (xs : List ℕ) → bytes_equal xs xs ≡ true
unfolding bytes_equal
bytes_equal_refl [] = refl
bytes_equal_refl (x ∷ xs) = ground (arith, bytes_equal_refl xs)

-- `BytesEqual` decides equality.
pub bytes_equal_iff : (xs ys : List ℕ) → (bytes_equal xs ys ≡ true) ↔ (xs ≡ ys)
bytes_equal_iff xs ys = (bytes_equal_sound xs ys, λ e. rw e (bytes_equal_refl ys))

abbrev pub flip : Order → Order
flip less = greater
flip equal = equal
flip greater = less

pub compare_bytes-flip : (xs ys : List ℕ) → compare_bytes ys xs ≡ flip (compare_bytes xs ys)
unfolding compare_bytes
compare_bytes-flip [] [] = refl
compare_bytes-flip [] (y ∷ ys) = refl
compare_bytes-flip (x ∷ xs) [] = refl
compare_bytes-flip (x ∷ xs) (y ∷ ys) = ground (arith, compare_bytes-flip xs ys)

pub compare_bytes_equal : (xs ys : List ℕ) → compare_bytes xs ys ≡ equal → xs ≡ ys
unfolding compare_bytes
compare_bytes_equal [] [] h = refl
compare_bytes_equal [] (y ∷ ys) h = cc
compare_bytes_equal (x ∷ xs) [] h = cc
compare_bytes_equal (x ∷ xs) (y ∷ ys) h = ground (arith, compare_bytes_equal xs ys)

pub compare_bytes_trans :
    (xs ys zs : List ℕ)
    → compare_bytes xs ys ≡ less
    → compare_bytes ys zs ≡ less
    → compare_bytes xs zs ≡ less
unfolding compare_bytes
compare_bytes_trans [] [] zs h k = k
compare_bytes_trans [] (y ∷ ys) [] h k = cc
compare_bytes_trans [] (y ∷ ys) (z ∷ zs) h k = refl
compare_bytes_trans (x ∷ xs) [] zs h k = cc
compare_bytes_trans (x ∷ xs) (y ∷ ys) [] h k = cc
compare_bytes_trans (x ∷ xs) (y ∷ ys) (z ∷ zs) h k = ground (arith, compare_bytes_trans xs ys zs)

-- `CompareBytes` is a total order: swapping the arguments flips the result, equal slices are
-- those that are the same, and the order is transitive. So both parties sort two keys alike.
pub compare_bytes-IsOrder :
    (xs ys zs : List ℕ)
    → (compare_bytes ys xs ≡ flip (compare_bytes xs ys))
      × (compare_bytes xs ys ≡ equal → xs ≡ ys)
      × (compare_bytes xs ys ≡ less → compare_bytes ys zs ≡ less → compare_bytes xs zs ≡ less)
compare_bytes-IsOrder xs ys zs =
    (compare_bytes-flip xs ys, compare_bytes_equal xs ys, compare_bytes_trans xs ys zs)

-- Padding gives a slice of the wanted length, and leaves a slice that is too long as it is.
pub length-pad :
    (bs : List ℕ) (n : ℕ)
    → (length bs ≤ n → length (pad_left bs n) ≡ n)
      × (length bs ≤ n → length (pad_right bs n) ≡ n)
      × (n ≤ length bs → (pad_left bs n ≡ bs) × (pad_right bs n ≡ bs))
unfolding pad_left pad_right
length-pad bs n = (
  (λ h. ground (
    arith,
    length-append (replicate (n - length bs) 0) bs,
    length-replicate {A = ℕ} (n - length bs) 0,
  )),
  (λ h. ground (
    arith,
    length-append bs (replicate (n - length bs) 0),
    length-replicate {A = ℕ} (n - length bs) 0,
  )),
  (λ h. ground arith),
)
