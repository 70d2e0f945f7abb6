-- ===== src/Tables/Unique.antt =====
-- Tables with a key: no two rows have the same one.
use klingdex.Prelude.{Bool, false, ◌≡◌, refl, ◌∙◌, List, [], ◌∷◌, ◌++◌, arith, Bool-cases, inl, inr}
use klingdex.Tables.{
  update_where, filter_where, any_where, upsert, any_where-update, any_where-filter, any_where-snoc,
}

-- `same` compares the keys of two rows.
module _ {A : Type 0} (same : A → A → Bool) where
  abbrev pub Unique : List A → Type 0
  Unique [] = Unit {0}
  Unique (m ∷ ms) = (any_where (same m) ms ≡ false) × Unique ms

  any_where-same :
      (q r : A → Bool) (rows : List A) → ((m : A) → q m ≡ r m) → any_where q rows ≡ any_where r rows
  unfolding any_where
  any_where-same q r [] h = refl
  any_where-same q r (m ∷ ms) h = ground (arith, any_where-same q r ms h, h m)

  pub Unique-update :
      (p : A → Bool) (f : A → A) (rows : List A)
      → ((a b : A) → same (f a) b ≡ same a b)
      → ((a b : A) → same a (f b) ≡ same a b)
      → Unique rows
      → Unique (update_where p f rows)
  unfolding update_where
  Unique-update p f [] left right d = tt
  Unique-update p f (m ∷ ms) left right (fresh, d) =
      let kept = any_where-update (same m) p f ms (right m) in
      let moved = any_where-update (same (f m)) p f ms (right (f m)) in
      let rest = Unique-update p f ms left right d in
      elim (Bool-cases (p m)) [
        | inl hit ↦ rw hit (moved ∙ any_where-same (same (f m)) (same m) ms (left m) ∙ fresh, rest)
        | inr miss ↦ rw miss (rw kept fresh, rest)
      ]

  pub Unique-filter : (p : A → Bool) (rows : List A) → Unique rows → Unique (filter_where p rows)
  unfolding filter_where
  Unique-filter p [] d = tt
  Unique-filter p (m ∷ ms) (fresh, d) = elim (Bool-cases (p m)) [
    | inl hit ↦ rw hit (any_where-filter (same m) p ms fresh, Unique-filter p ms d)
    | inr miss ↦ rw miss (Unique-filter p ms d)
  ]

  -- A row whose key is not there yet.
  pub Unique-snoc :
      (rows : List A) (x : A)
      → ((a b : A) → same a b ≡ same b a)
      → any_where (same x) rows ≡ false
      → Unique rows
      → Unique (rows ++ (x ∷ []))
  Unique-snoc [] x comm h d = (unfold any_where in refl, tt)
  Unique-snoc (m ∷ ms) x comm h (fresh, d) =
      let other : same x m ≡ false = unfold any_where in ground arith in
      let later : any_where (same x) ms ≡ false = unfold any_where in ground arith in
      (any_where-snoc (same m) ms x fresh (comm m x ∙ other), Unique-snoc ms x comm later d)

  pub Unique-upsert :
      (f : A → A) (x : A) (rows : List A)
      → ((a b : A) → same a b ≡ same b a)
      → ((a b : A) → same (f a) b ≡ same a b)
      → Unique rows
      → Unique (upsert (same x) f x rows)
  unfolding upsert
  Unique-upsert f x rows comm left d = elim (Bool-cases (any_where (same x) rows)) [
    | inl taken ↦
        rw taken (Unique-update (same x) f rows left (λ a b. comm a (f b) ∙ left b a ∙ comm b a) d)
    | inr fresh ↦ rw fresh (Unique-snoc rows x comm fresh d)
  ]
