-- ===== src/Swap/Coordinator/Frame.antt =====
-- What a handler of internal/swap/coordinator.go leaves alone.
use klingdex.Prelude.{
  ok-injective, String, ◌≡◌, ◌≢◌, refl, ap, ◌∙◌, inl, inr, some, List, [], ◌∷◌, lookup, ok, err,
  if◌then◌else◌, str_eq, arith, Bool-cases, Option-cases, eq_iff,
}
use klingdex.Swap.HtlcScript.{of_option}
use klingdex.Swap.Crypto.{Crypto}
use klingdex.Swap.Txscript.{Txscript}
use klingdex.Swap.Musig2Lib.{Musig2Lib}
use klingdex.Swap.Coordinator.{
  swap_not_found, ActiveSwap, Coordinator, Reply, put, with_swap, get_swap,
}

module _ {c : Crypto} (l : Musig2Lib c) (t : Txscript) where
  put-lookup :
      (id : String) (a : ActiveSwap l t) (m : List (String × ActiveSwap l t))
      → lookup id (put l t id a m) ≡ some a
  unfolding put
  put-lookup id a [] = ground (arith, eq_iff id id)
  put-lookup id a ((j, b) ∷ m) = elim (Bool-cases (str_eq j id)) [
    | inl e ↦ rw (e, e) refl
    | inr e ↦ rw (e, e) (put-lookup id a m)
  ]

  put-other :
      (id j : String) (a : ActiveSwap l t) (m : List (String × ActiveSwap l t))
      → id ≢ j
      → lookup j (put l t id a m) ≡ lookup j m
  unfolding put
  put-other id j a [] h = ground (arith, eq_iff id j)
  put-other id j a ((k, b) ∷ m) h = elim (Bool-cases (str_eq k id)) [
    | inl e ↦ ground (arith, eq_iff k id, eq_iff k j)
    | inr e ↦ rw e (ap (λ r. if str_eq k j then some b else r) (put-other id j a m h))
  ]

  -- A handler that runs on one trade's swap changes no other trade's: whatever it does, and also
  -- where it fails, every other trade has the swap that it had. The trade itself has what the
  -- handler left, also where it failed, and an unknown trade is an error that changes nothing.
  pub with_swap-Frame :
      {A : Type 0} (id : String) (handler : ActiveSwap l t → Reply l t A) (s : Coordinator l t)
      → ((j : String) → id ≢ j → get_swap l t j (with_swap l t id handler s).0 ≡ get_swap l t j s)
        × ((a : ActiveSwap l t)
            → get_swap l t id s ≡ ok a
            → (get_swap l t id (with_swap l t id handler s).0 ≡ ok (handler a).active)
              × ((with_swap l t id handler s).1 ≡ (handler a).result))
        × (get_swap l t id s ≡ err swap_not_found
            → with_swap l t id handler s ≡ (s, err swap_not_found))
  unfolding with_swap get_swap
  with_swap-Frame id handler s = elim (Option-cases (lookup id s.swaps)) [
    | inl e ↦ rw (with_swap, e, get_swap) (λ j h. refl, λ a h. absurd cc, λ h. refl)
    | inr (b, e) ↦
        rw (with_swap, e)
          (
            λ j h. ap (of_option swap_not_found) (put-other id j (handler b).active s.swaps h),
            λ a h.
                let same = ok-injective b a h in
                (
                  ap (of_option swap_not_found) (put-lookup id (handler b).active s.swaps)
                      ∙ ap (λ x. ok (handler x).active) same,
                  ap (λ x. (handler x).result) same,
                ),
            λ h. absurd cc,
          )
  ]
