-- ===== src/Utxos/Greedy.antt =====
-- The greedy loop: outputs are taken in order until their total covers the target and the fee for
-- those taken. Amounts are uint64; `need` is the uint64 sum of the target and the fee.
use klingdex.Prelude.{
  ℕ, suc, ◌+◌, ◌%◌, ◌^◌, ◌≤◌, ◌<◌, ◌≡◌, refl, sym, ap, Option, none, some, List, [], ◌∷◌, ◌++◌,
  arith, ltb, leb, if◌then◌else◌, length, take, take-length-append, length-append, leb→le,
  Bool-cases, inl, inr,
}
use mathlib.Core.List.{append_assoc, append-nil}
use klingdex.Utxos.Sort.{sum_of, sum_of-append}
use native.Mathlib.Decide.{ℕ_discrete}

module _ {A : Type 0} (amount : A → ℕ) (need : List A → ℕ) where
  -- `none` is the error for insufficient funds after the last output.
  unfoldable pub select_loop : List A → List A → ℕ → Option (List A × ℕ)
  select_loop [] selected total = if ltb total (need selected) then none else some (selected, total)
  select_loop (x ∷ xs) selected total =
      let selected' = selected ++ (x ∷ []) in
      let total' = (total + amount x) % 2 ^ 64 in
      let rest = select_loop xs selected' total' in
      if leb (need selected') total' then some (selected', total') else rest

  -- The first `k` outputs cover what they need.
  abbrev pub Covers : List A → ℕ → Type 0
  Covers xs k = need (take k xs) ≤ sum_of amount (take k xs)

  -- What a run of the loop over `all`, of which `taken` outputs were tried before, has found.
  abbrev pub Outcome : List A → ℕ → Option (List A × ℕ) → Type 0
  Outcome all taken none = (k : ℕ) → taken < k → k ≤ length all → ¬ Covers all k
  Outcome all taken (some (selected, total)) =
      (n : ℕ) × (n ≤ length all)
      × (selected ≡ take n all)
      × (total ≡ sum_of amount selected)
      × (need selected ≤ total)
      × ((k : ℕ) → taken < k → k < n → ¬ Covers all k)

  skip_at :
      (all : List A) (taken k : ℕ)
      → ¬ Covers all (suc taken)
      → (suc taken < k → ¬ Covers all k)
      → taken < k
      → ¬ Covers all k
  skip_at all taken k no_first h lt = elim (ℕ_discrete k (suc taken)) [
    | yes e ↦ rw e no_first
    | no ne ↦ h (omega arith)
  ]

  skip :
      (all : List A) (taken : ℕ) (r : Option (List A × ℕ))
      → ¬ Covers all (suc taken)
      → Outcome all (suc taken) r
      → Outcome all taken r
  skip all taken none no_first h = λ k lt le. skip_at all taken k no_first (λ l. h k l le) lt
  skip all taken (some (s, total)) no_first (n, a, b, c, d, h) =
      (n, a, b, c, d, λ k lt le. skip_at all taken k no_first (λ l. h k l le) lt)

  take_all : (xs : List A) → take (length xs) xs ≡ xs
  take_all [] = refl
  take_all (x ∷ xs) = ap (λ t. x ∷ t) (take_all xs)

  try_selected :
      (selected xs : List A) (n total : ℕ) (r : Option (List A × ℕ))
      → length selected ≡ suc n
      → total ≡ sum_of amount selected
      → Outcome (selected ++ xs) (length selected) r
      → Outcome (selected ++ xs) n (if leb (need selected) total then some (selected, total) else r)
  try_selected selected xs n total r l e h = elim (Bool-cases (leb (need selected) total)) [
    | inl enough ↦ rw enough (
      length selected,
      omega (arith, length-append selected xs),
      sym (take-length-append selected xs),
      e,
      leb→le (need selected) total enough,
      λ k a b. absurd (omega arith),
    )
    | inr short ↦ rw short (
        skip (selected ++ xs) n r (rw (← l, take-length-append selected xs) (ground arith))
          (rw l at h))
  ]

  pub select_loop-Outcome :
      (xs selected : List A) (total : ℕ)
      → total ≡ sum_of amount selected
      → sum_of amount (selected ++ xs) < 2 ^ 64
      → Outcome (selected ++ xs) (length selected) (select_loop xs selected total)
  unfolding select_loop
  select_loop-Outcome [] selected total e h =
      rw (append-nil selected) (elim (Bool-cases (ltb total (need selected))) [
        | inl short ↦ rw short (λ k a b. absurd (omega arith))
        | inr enough ↦ rw enough (
          length selected,
          omega arith,
          sym (take_all selected),
          e,
          ground arith,
          λ k a b. absurd (omega arith),
        )
      ])
  select_loop-Outcome (x ∷ xs) selected total e h =
      let selected' = selected ++ (x ∷ []) in
      let regroup : selected ++ (x ∷ xs) ≡ selected' ++ xs =
        sym (append_assoc selected (x ∷ []) xs) in
      let total' = (total + amount x) % 2 ^ 64 in
      let e' : total' ≡ sum_of amount selected' =
        omega
          (arith, sum_of-append amount selected (x ∷ []), sum_of-append amount selected (x ∷ xs)) in
      let l : length selected' ≡ suc (length selected) =
        omega (arith, length-append selected (x ∷ [])) in
      rw regroup (
        try_selected selected' xs (length selected) total' (select_loop xs selected' total') l e'
          (select_loop-Outcome xs selected' total' e' (rw regroup at h)))
