-- ===== src/Tables/Order.antt =====
-- What `ORDER BY`, `LIMIT` and `WHERE` keep.
use klingdex.Prelude.{
  ℕ, zero, suc, ◌+◌, ◌≤◌, Bool, true, false, ◌≡◌, refl, sym, ◌∙◌, ap, List, [], ◌∷◌, arith,
  if◌then◌else◌, Bool-cases, inl, inr, All, length, take,
}
use klingdex.Utxos.Sort.{sum_of}
use klingdex.Tables.{filter_where, insert_with, order_with}

module _ {A : Type 0} (P : A → Type 0) where
  pub All-filter :
      (p : A → Bool) (rows : List A)
      → All (λ m. p m ≡ true → P m) rows
      → All P (filter_where p rows)
  unfolding filter_where
  All-filter p [] h = tt
  All-filter p (m ∷ ms) (h, hs) = elim (Bool-cases (p m)) [
    | inl hit ↦ rw hit (h hit, All-filter p ms hs)
    | inr miss ↦ rw miss (All-filter p ms hs)
  ]

  pub All-subset : (p : A → Bool) (rows : List A) → All P rows → All P (filter_where p rows)
  unfolding filter_where
  All-subset p [] h = tt
  All-subset p (m ∷ ms) (h, hs) = elim (Bool-cases (p m)) [
    | inl hit ↦ rw hit (h, All-subset p ms hs)
    | inr miss ↦ rw miss (All-subset p ms hs)
  ]

  pub All-insert :
      (before : A → A → Bool) (m : A) (rows : List A)
      → P m
      → All P rows
      → All P (insert_with before m rows)
  unfolding insert_with
  All-insert before m [] h hs = (h, tt)
  All-insert before m (x ∷ xs) h (k, hs) = elim (Bool-cases (before m x)) [
    | inl first ↦ rw first (h, (k, hs))
    | inr later ↦ rw later (k, All-insert before m xs h hs)
  ]

  pub All-order :
      (before : A → A → Bool) (rows : List A) → All P rows → All P (order_with before rows)
  unfolding order_with
  All-order before [] h = tt
  All-order before (m ∷ ms) (h, hs) =
      All-insert before m (order_with before ms) h (All-order before ms hs)

  pub All-take : (n : ℕ) (rows : List A) → All P rows → All P (take n rows)
  All-take zero rows h = tt
  All-take (suc n) [] h = tt
  All-take (suc n) (m ∷ ms) (h, hs) = (h, All-take n ms hs)

pub length-take_le : {A : Type 0} (n : ℕ) (rows : List A) → length (take n rows) ≤ n
length-take_le zero rows = omega arith
length-take_le (suc n) [] = omega arith
length-take_le (suc n) (m ∷ ms) = omega (arith, length-take_le n ms)

module _ {A : Type 0} (f : A → ℕ) (before : A → A → Bool) where
  sum_of-insert :
      (m : A) (rows : List A) → sum_of f (insert_with before m rows) ≡ f m + sum_of f rows
  unfolding insert_with
  sum_of-insert m [] = refl
  sum_of-insert m (x ∷ xs) = elim (Bool-cases (before m x)) [
    | inl first ↦ rw first refl
    | inr later ↦ rw later (omega (arith, sum_of-insert m xs))
  ]

  pub sum_of-order : (rows : List A) → sum_of f (order_with before rows) ≡ sum_of f rows
  unfolding order_with
  sum_of-order [] = refl
  sum_of-order (m ∷ ms) =
      sum_of-insert m (order_with before ms) ∙ ap (λ n. f m + n) (sum_of-order ms)

-- A total preorder on the rows.
module _ {A : Type 0} (before : A → A → Bool)
    (total : (a b : A) → before a b ≡ false → before b a ≡ true)
    (trans : (a b c : A) → before a b ≡ true → before b c ≡ true → before a c ≡ true) where
  abbrev IsSorted : List A → Type 0
  IsSorted [] = Unit {0}
  IsSorted (m ∷ ms) = All (λ x. before m x ≡ true) ms × IsSorted ms

  All-later :
      (m x : A) (rows : List A)
      → before m x ≡ true
      → All (λ y. before x y ≡ true) rows
      → All (λ y. before m y ≡ true) rows
  All-later m x [] h hs = tt
  All-later m x (y ∷ ys) h (k, hs) = (trans m x y h k, All-later m x ys h hs)

  insert-IsSorted : (m : A) (rows : List A) → IsSorted rows → IsSorted (insert_with before m rows)
  unfolding insert_with
  insert-IsSorted m [] d = (tt, tt)
  insert-IsSorted m (x ∷ xs) (least, d) = elim (Bool-cases (before m x)) [
    | inl first ↦ rw first ((first, All-later m x xs first least), (least, d))
    | inr later ↦ rw later (
      All-insert (λ y. before x y ≡ true) before m xs (total m x later) least,
      insert-IsSorted m xs d,
    )
  ]

  order-IsSorted : (rows : List A) → IsSorted (order_with before rows)
  unfolding order_with
  order-IsSorted [] = tt
  order-IsSorted (m ∷ ms) = insert-IsSorted m (order_with before ms) (order-IsSorted ms)

  insert_first :
      (m : A) (rows : List A)
      → All (λ y. before m y ≡ true) rows
      → insert_with before m rows ≡ m ∷ rows
  unfolding insert_with
  insert_first m [] h = refl
  insert_first m (x ∷ xs) (h, hs) = rw h refl

  filter-insert :
      (p : A → Bool) (m : A) (rows : List A)
      → IsSorted rows
      → filter_where p (insert_with before m rows)
        ≡ (if p m then insert_with before m (filter_where p rows) else filter_where p rows)
  unfolding insert_with filter_where
  filter-insert p m [] d = refl
  filter-insert p m (x ∷ xs) (least, d) = elim (Bool-cases (before m x)) [
    | inl first ↦
        let small = All-later m x xs first least in
        elim (Bool-cases (p x)) [
          | inl hit ↦
              rw (first, hit)
                (sym (
                  ap (λ r. if p m then r else x ∷ filter_where p xs)
                    (insert_first m (x ∷ filter_where p xs)
                      (first, All-subset (λ y. before m y ≡ true) p xs small))))
          | inr miss ↦
              rw (first, miss)
                (sym (
                  ap (λ r. if p m then r else filter_where p xs)
                    (insert_first m (filter_where p xs)
                      (All-subset (λ y. before m y ≡ true) p xs small))))
        ]
    | inr later ↦ ground (arith, filter-insert p m xs d)
  ]

  -- Rows may be left out before or after they are ordered.
  pub filter-order :
      (p : A → Bool) (rows : List A)
      → filter_where p (order_with before rows) ≡ order_with before (filter_where p rows)
  unfolding order_with filter_where
  filter-order p [] = refl
  filter-order p (m ∷ ms) =
      filter-insert p m (order_with before ms) (order-IsSorted ms) ∙ elim (Bool-cases (p m)) [
        | inl hit ↦ rw (hit, filter-order p ms) refl
        | inr miss ↦ rw miss (filter-order p ms)
      ]
