-- ===== src/Utxos/Sort.antt =====
-- The insertion sort by amount, largest first (`sortUTXOs`, `sortAddressUTXOs` and the loop inside
-- `selectUTXOsForAmount`).
use mathlib.Core.List.{Perm, reverse, perm_middle, reverse_perm, append-nil, reverse-append}
use mathlib.Core.List.Perm
use klingdex.Prelude.{
  ℕ, ◌+◌, ◌≤◌, ◌≡◌, refl, sym, ◌∙◌, length, List, [], ◌∷◌, ◌++◌, arith, ltb, if◌then◌else◌, All,
  All-append, Bool-cases, inl, inr, ltb→lt,
}

module _ {A : Type 0} (f : A → ℕ) where
  abbrev pub sum_of : List A → ℕ
  sum_of [] = 0
  sum_of (x ∷ xs) = f x + sum_of xs

  pub sum_of-append : (xs ys : List A) → sum_of (xs ++ ys) ≡ sum_of xs + sum_of ys
  sum_of-append [] ys = omega arith
  sum_of-append (x ∷ xs) ys = omega (arith, sum_of-append xs ys)

  sum_of-reverse : (xs : List A) → sum_of (reverse xs) ≡ sum_of xs
  sum_of-reverse [] = refl
  sum_of-reverse (x ∷ xs) =
      rw (reverse-append (x ∷ []) xs)
        (omega (arith, sum_of-append (reverse xs) (x ∷ []), sum_of-reverse xs))

module _ {A : Type 0} (amount : A → ℕ) where
  -- The inner loop: an element moves left past each smaller neighbour. The sorted part is listed
  -- from its end.
  unfoldable pub bubble : A → List A → List A
  bubble x [] = x ∷ []
  bubble x (y ∷ ys) =
      let moved = bubble x ys in if ltb (amount y) (amount x) then y ∷ moved else x ∷ y ∷ ys

  -- The outer loop, over what is left to insert.
  unfoldable pub sort_loop : List A → List A → List A
  sort_loop sorted [] = reverse sorted
  sort_loop sorted (x ∷ xs) = sort_loop (bubble x sorted) xs

  unfoldable pub sort_utxos : List A → List A
  unfolding bubble sort_loop
  sort_utxos xs = sort_loop [] xs

  bubble-perm : (x : A) (ys : List A) → Perm (bubble x ys) (x ∷ ys)
  unfolding bubble
  bubble-perm x [] = Perm.refl (x ∷ [])
  bubble-perm x (y ∷ ys) = elim (Bool-cases (ltb (amount y) (amount x))) [
    | inl smaller ↦ rw smaller (Perm.trans (Perm.cons y (bubble-perm x ys)) (Perm.swap x y ys))
    | inr large ↦ rw large (Perm.refl (x ∷ y ∷ ys))
  ]

  sort_loop-perm : (sorted xs : List A) → Perm (sort_loop sorted xs) (sorted ++ xs)
  unfolding sort_loop
  sort_loop-perm sorted [] = rw append-nil (reverse_perm sorted)
  sort_loop-perm sorted (x ∷ xs) =
      Perm.trans (sort_loop-perm (bubble x sorted) xs) (
        Perm.trans (Perm.append_right xs (bubble-perm x sorted))
          (Perm.symm (perm_middle sorted xs)))

  sum_of-bubble : (f : A → ℕ) (x : A) (ys : List A) → sum_of f (bubble x ys) ≡ f x + sum_of f ys
  unfolding bubble
  sum_of-bubble f x [] = refl
  sum_of-bubble f x (y ∷ ys) = ground (arith, sum_of-bubble f x ys)

  sum_of-sort_loop :
      (f : A → ℕ) (sorted xs : List A)
      → sum_of f (sort_loop sorted xs) ≡ sum_of f sorted + sum_of f xs
  unfolding sort_loop
  sum_of-sort_loop f sorted [] = omega (arith, sum_of-reverse f sorted)
  sum_of-sort_loop f sorted (x ∷ xs) =
      omega (arith, sum_of-sort_loop f (bubble x sorted) xs, sum_of-bubble f x sorted)

  pub sum_of-sort_utxos : (f : A → ℕ) (xs : List A) → sum_of f (sort_utxos xs) ≡ sum_of f xs
  unfolding sort_utxos
  sum_of-sort_utxos f xs = omega (arith, sum_of-sort_loop f [] xs)

  sum_of_ones : (xs : List A) → sum_of (λ _. 1) xs ≡ length xs
  sum_of_ones [] = refl
  sum_of_ones (x ∷ xs) = omega (arith, sum_of_ones xs)

  pub length-sort_utxos : (xs : List A) → length (sort_utxos xs) ≡ length xs
  length-sort_utxos xs =
      sym (sum_of_ones (sort_utxos xs)) ∙ (sum_of-sort_utxos (λ _. 1) xs ∙ sum_of_ones xs)

  -- Sorting loses, adds and changes nothing.
  pub sort_utxos-perm : (xs : List A) → Perm (sort_utxos xs) xs
  unfolding sort_utxos
  sort_utxos-perm xs = sort_loop-perm [] xs

  abbrev AtLeast : A → A → Type 0
  AtLeast x y = amount x ≤ amount y

  abbrev IsAscending : List A → Type 0
  IsAscending [] = Unit {0}
  IsAscending (x ∷ xs) = All (AtLeast x) xs × IsAscending xs

  abbrev pub IsDescending : List A → Type 0
  IsDescending [] = Unit {0}
  IsDescending (x ∷ xs) = All (λ y. amount y ≤ amount x) xs × IsDescending xs

  All-bubble : (P : A → Type 0) (x : A) (ys : List A) → P x → All P ys → All P (bubble x ys)
  unfolding bubble
  All-bubble P x [] p h = (p, tt)
  All-bubble P x (y ∷ ys) p (q, h) = elim (Bool-cases (ltb (amount y) (amount x))) [
    | inl smaller ↦ rw smaller (q, All-bubble P x ys p h)
    | inr large ↦ rw large (p, (q, h))
  ]

  All-AtLeast_trans :
      (x y : A) (zs : List A) → amount x ≤ amount y → All (AtLeast y) zs → All (AtLeast x) zs
  All-AtLeast_trans x y [] p h = tt
  All-AtLeast_trans x y (z ∷ zs) p (q, h) = (omega arith, All-AtLeast_trans x y zs p h)

  bubble-IsAscending : (x : A) (ys : List A) → IsAscending ys → IsAscending (bubble x ys)
  unfolding bubble
  bubble-IsAscending x [] h = (tt, tt)
  bubble-IsAscending x (y ∷ ys) (q, h) = elim (Bool-cases (ltb (amount y) (amount x))) [
    | inl smaller ↦ rw smaller (
      All-bubble (AtLeast y) x ys (let lt = ltb→lt _ _ smaller in omega arith) q,
      bubble-IsAscending x ys h,
    )
    | inr large ↦
        let le : amount x ≤ amount y = ground arith in
        rw large ((le, All-AtLeast_trans x y ys le q), (q, h))
  ]

  IsDescending-append :
      (xs : List A) (x : A) → IsDescending xs → All (AtLeast x) xs → IsDescending (xs ++ (x ∷ []))
  IsDescending-append [] x h k = (tt, tt)
  IsDescending-append (y ∷ ys) x (q, h) (p, k) =
      (All-append _ ys (x ∷ []) q (p, tt), IsDescending-append ys x h k)

  All-reverse : (P : A → Type 0) (xs : List A) → All P xs → All P (reverse xs)
  All-reverse P [] h = tt
  All-reverse P (x ∷ xs) (p, h) =
      rw (reverse-append (x ∷ []) xs)
        (All-append P (reverse xs) (x ∷ []) (All-reverse P xs h) (p, tt))

  pub All-sort_utxos : (P : A → Type 0) (xs : List A) → All P xs → All P (sort_utxos xs)
  unfolding sort_utxos sort_loop
  All-sort_utxos P xs h = go [] xs tt h
    where
      go : (sorted xs : List A) → All P sorted → All P xs → All P (sort_loop sorted xs)
      go sorted [] p h = All-reverse P sorted p
      go sorted (x ∷ xs) p (q, h) = go (bubble x sorted) xs (All-bubble P x sorted q p) h

  reverse-IsDescending : (xs : List A) → IsAscending xs → IsDescending (reverse xs)
  reverse-IsDescending [] h = tt
  reverse-IsDescending (x ∷ xs) (q, h) = rw (reverse-append (x ∷ []) xs) (
      IsDescending-append (reverse xs) x (reverse-IsDescending xs h) (All-reverse (AtLeast x) xs q))

  sort_loop-IsDescending :
      (sorted xs : List A) → IsAscending sorted → IsDescending (sort_loop sorted xs)
  unfolding sort_loop
  sort_loop-IsDescending sorted [] h = reverse-IsDescending sorted h
  sort_loop-IsDescending sorted (x ∷ xs) h =
      sort_loop-IsDescending (bubble x sorted) xs (bubble-IsAscending x sorted h)

  -- Sorting gives a permutation in which no output is followed by a larger one.
  pub sort_utxos-sorts : (xs : List A) → Perm (sort_utxos xs) xs × IsDescending (sort_utxos xs)
  unfolding sort_utxos
  sort_utxos-sorts xs = (sort_loop-perm [] xs, sort_loop-IsDescending [] xs tt)
