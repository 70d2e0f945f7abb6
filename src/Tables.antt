-- ===== src/Tables.antt =====
-- What the SQL statements of internal/storage say, on a table that is the list of its rows in the
-- order in which they were inserted. Rows that `ORDER BY` does not tell apart stay in that order.
pub mod Unique
pub mod Order
use klingdex.Prelude.{
  ltb, ◌^◌, ℕ, ◌+◌, Bool, true, false, ◌||◌, ◌≡◌, refl, Option, none, some, List, [], ◌∷◌, ◌++◌,
  leb, zero, suc, take, drop, if◌then◌else◌, arith, Bool-cases, inl, inr, sym, ◌∙◌,
}

-- `database/sql` passes a uint64 on only below `2 ^ 63`: else the statement fails.
abbrev pub storable : ℕ → Bool
storable n = ltb n (2 ^ 63)

module _ {A : Type 0} where
  -- `UPDATE ... SET ... WHERE test`
  unfoldable pub update_where : (A → Bool) → (A → A) → List A → List A
  update_where p f [] = []
  update_where p f (m ∷ ms) = let rest = update_where p f ms in if p m then f m ∷ rest else m ∷ rest

  -- `SELECT ... WHERE test`
  unfoldable pub filter_where : (A → Bool) → List A → List A
  filter_where p [] = []
  filter_where p (m ∷ ms) = let rest = filter_where p ms in if p m then m ∷ rest else rest

  -- `SELECT ... WHERE test` for one row.
  unfoldable pub find_where : (A → Bool) → List A → Option A
  find_where p [] = none
  find_where p (m ∷ ms) = let rest = find_where p ms in if p m then some m else rest

  -- Is a row affected?
  unfoldable pub any_where : (A → Bool) → List A → Bool
  any_where p [] = false
  any_where p (m ∷ ms) = p m || any_where p ms

  -- `INSERT ... ON CONFLICT DO UPDATE SET ...`: the rows in conflict are updated, or the new row is
  -- added.
  unfoldable pub upsert : (A → Bool) → (A → A) → A → List A → List A
  unfolding update_where any_where
  upsert p f new rows = if any_where p rows then update_where p f rows else rows ++ (new ∷ [])

  unfoldable pub insert_with : (A → A → Bool) → A → List A → List A
  insert_with before m [] = m ∷ []
  insert_with before m (x ∷ xs) =
      let rest = insert_with before m xs in if before m x then m ∷ x ∷ xs else x ∷ rest

  -- `ORDER BY`, with the rows of which the first may stand before the second.
  unfoldable pub order_with : (A → A → Bool) → List A → List A
  unfolding insert_with
  order_with before [] = []
  order_with before (m ∷ ms) = insert_with before m (order_with before ms)

  abbrev pub ascending : (A → ℕ) → A → A → Bool
  ascending key a b = leb (key a) (key b)

  abbrev pub descending : (A → ℕ) → A → A → Bool
  descending key a b = leb (key b) (key a)

  -- `LIMIT` and `OFFSET`, which are left off at 0. An `OFFSET` alone is no SQL: `none` is the
  -- error.
  unfoldable pub page : ℕ → ℕ → List A → Option (List A)
  page zero zero rows = some rows
  page zero (suc offset) rows = none
  page (suc limit) offset rows = some (take (suc limit) (drop offset rows))

  pub any_where-update :
      (q p : A → Bool) (f : A → A) (rows : List A)
      → ((m : A) → q (f m) ≡ q m)
      → any_where q (update_where p f rows) ≡ any_where q rows
  unfolding any_where update_where
  any_where-update q p f [] h = refl
  any_where-update q p f (m ∷ ms) h = ground (arith, any_where-update q p f ms h, h m)

  pub any_where-filter :
      (q p : A → Bool) (rows : List A)
      → any_where q rows ≡ false
      → any_where q (filter_where p rows) ≡ false
  unfolding any_where filter_where
  any_where-filter q p [] h = refl
  any_where-filter q p (m ∷ ms) h = ground (arith, any_where-filter q p ms)

  -- A row at the end.
  pub any_where-snoc :
      (q : A → Bool) (rows : List A) (x : A)
      → any_where q rows ≡ false
      → q x ≡ false
      → any_where q (rows ++ (x ∷ [])) ≡ false
  unfolding any_where
  any_where-snoc q [] x h k = ground arith
  any_where-snoc q (m ∷ ms) x h k = ground (arith, any_where-snoc q ms x)

  pub find-update :
      (q p : A → Bool) (f : A → A) (rows : List A)
      → ((m : A) → q (f m) ≡ q m)
      → find_where q (update_where p f rows)
        ≡ (elim (find_where q rows) [ none ↦ none | some m ↦ some (if p m then f m else m) ])
  unfolding find_where update_where
  find-update q p f [] h = refl
  find-update q p f (m ∷ ms) h = ground (arith, find-update q p f ms h, h m)

  pub find_where-true :
      (q : A → Bool) (rows : List A) {m : A} → find_where q rows ≡ some m → q m ≡ true
  unfolding find_where
  find_where-true q [] h = absurd (cc)
  find_where-true q (x ∷ xs) {m} h = elim (Bool-cases (q x)) [
    | inl hit ↦ let e : x ≡ m = cc (rw hit at h) in rw (sym e) hit
    | inr miss ↦ find_where-true q xs (rw miss at h)
  ]

  pub any_where-find :
      (q : A → Bool) (rows : List A) {m : A} → find_where q rows ≡ some m → any_where q rows ≡ true
  unfolding find_where any_where
  any_where-find q [] h = absurd (cc)
  any_where-find q (x ∷ xs) {m} h = ground (arith, any_where-find q xs {m = m})

  -- The first row that a test finds, after an update of the rows that pass it.
  pub find-update_self :
      (q : A → Bool) (f : A → A) (rows : List A) {m : A}
      → ((a : A) → q (f a) ≡ q a)
      → find_where q rows ≡ some m
      → find_where q (update_where q f rows) ≡ some (f m)
  find-update_self q f rows h e = find-update q q f rows h ∙ rw (e, find_where-true q rows e) refl

  -- A row at the end is found only if no other is.
  pub find-snoc_some :
      (q : A → Bool) (rows : List A) (x : A) {m : A}
      → find_where q rows ≡ some m
      → find_where q (rows ++ (x ∷ [])) ≡ some m
  unfolding find_where
  find-snoc_some q [] x h = absurd (cc)
  find-snoc_some q (r ∷ rs) x {m} h = ground (arith, find-snoc_some q rs x {m = m})

  pub find-snoc_none :
      (q : A → Bool) (rows : List A) (x : A)
      → find_where q rows ≡ none
      → q x ≡ true
      → find_where q (rows ++ (x ∷ [])) ≡ some x
  unfolding find_where
  find-snoc_none q [] x h k = ground arith
  find-snoc_none q (r ∷ rs) x h k = ground (arith, find-snoc_none q rs x)

  pub any_where_of_none :
      (q : A → Bool) (rows : List A) → find_where q rows ≡ none → any_where q rows ≡ false
  unfolding find_where any_where
  any_where_of_none q [] h = refl
  any_where_of_none q (r ∷ rs) h = ground (arith, any_where_of_none q rs)
