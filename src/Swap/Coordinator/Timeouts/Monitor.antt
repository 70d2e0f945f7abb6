-- ===== src/Swap/Coordinator/Timeouts/Monitor.antt =====
-- What the monitor of internal/swap/coordinator_timeout.go does with a swap.
use klingdex.Prelude.{
  ℕ, String, Bool, true, false, not, ◌||◌, ◌≡◌, refl, ◌∙◌, ap, ◌⊎◌, inl, inr, Option, none, some,
  List, [], ◌∷◌, lookup, ltb, leb, Result, ok, err, str_eq, arith, Bool-cases, Result-cases, eq_iff,
}
use klingdex.Swap.HtlcScript.{of_option}
use klingdex.Swap.Crypto.{Crypto}
use klingdex.Swap.Txscript.{Txscript}
use klingdex.Swap.Taproot.{TaprootScriptTree}
use klingdex.Swap.Musig2Lib.{Musig2Lib}
use klingdex.Swap.Types.{
  State, none_state, init, redeemed, failed, cancelled, other, funding, funded, refunded, Swap,
  is_initiator,
}
use klingdex.Swap.State.{state_eq, ◌⟶◌, refund, refund_partial}
use klingdex.Swap.Heights.{can_refund_by_block}
use klingdex.Swap.Spending.{TxLib, SpendTx, SpendError, build_refund_tx_from_tree}
use klingdex.Swap.Coordinator.{
  CoordError, bad_chain, no_funding, nil_pointer, build_failed, backend_failed, Backend, Backends,
  get_block_height, or_zero, Musig2Data, ActiveSwap, Coordinator, Reply, proceed, when,
}
use klingdex.Swap.Coordinator.HtlcSpend.{
  Derive, send, of_build, spend_params, rate_or_default, hour,
}
use klingdex.Swap.Coordinator.Refund.{
  own_leg, chain_of, find_tree, cache_tree, refund_address, refund_leg, refund_data,
  build_and_broadcast_refund,
}
use klingdex.Swap.Coordinator.Timeouts.{
  check_timeout_for_chain, check_swap, check_all, check_timeouts, left_by,
}

can_refund_maker :
    (s : Swap) (n m : ℕ)
    → is_initiator s.role ≡ true
    → leb s.offer_chain_timeout_height n ≡ true
    → can_refund_by_block s n m ≡ true
unfolding can_refund_by_block
can_refund_maker s n m h k = rw h k

can_refund_taker :
    (s : Swap) (n m : ℕ)
    → is_initiator s.role ≡ false
    → leb s.request_chain_timeout_height m ≡ true
    → can_refund_by_block s n m ≡ true
unfolding can_refund_by_block
can_refund_taker s n m h k = rw h k

module _ {c : Crypto} (l : Musig2Lib c) (t : Txscript) (x : TxLib c) where
  -- The swap is as it was, or refunded.
  abbrev Ends : {A : Type 0} → Swap → Reply l t A → Type 0
  Ends s r = (r.active.swap ≡ s) ⊎ (r.active.swap ≡ record s { state = refunded })

  proceed-Ends :
      {A B : Type 0} (s : Swap) (a : ActiveSwap l t) (r : Result CoordError A) (f : A → Reply l t B)
      → a.swap ≡ s
      → ((v : A) → Ends s (f v))
      → Ends s (proceed l t a r f)
  proceed-Ends s a (ok v) f e h = h v
  proceed-Ends s a (err d) f e h = inl e

  when-Ends :
      {B : Type 0} (s : Swap) (test : Bool) (a : ActiveSwap l t) (d : CoordError) (r : Reply l t B)
      → a.swap ≡ s
      → Ends s r
      → Ends s (when l t test a d r)
  when-Ends s true a d r e h = h
  when-Ends s false a d r e h = inl e

  send-Ends :
      (s : Swap) (a : ActiveSwap l t) (b : Backend) (built : Result SpendError SpendTx)
      → a.swap ≡ s
      → Ends s (send l t x "refunded" refunded a b built)
  unfolding send
  send-Ends s a b built e = proceed-Ends s a (of_build built) _ e (λ tx.
      proceed-Ends s a (of_option build_failed (x.serialize_tx tx)) _ e (λ raw.
        proceed-Ends s a (of_option backend_failed (b.broadcast raw)) _ e
          (λ id. inr (ap (λ (u : Swap). record u { state = refunded }) e))))

  refund_leg-Ends :
      (bs : Backends) (derive : Derive l t x) (trade symbol : String) (s : Swap)
      (a : ActiveSwap l t) (d : Musig2Data l t) (tree : TaprootScriptTree c)
      → a.swap ≡ s
      → Ends s (refund_leg l t x bs derive trade symbol a d tree)
  unfolding refund_leg
  refund_leg-Ends bs derive trade symbol s a d tree e =
      proceed-Ends s a (of_option bad_chain (own_leg symbol a.swap)) _ e (λ amount.
        when-Ends s (not (str_eq a.swap.local_funding_tx_id "")) a no_funding _ e (
          proceed-Ends s a (refund_address l t x derive trade symbol a.swap) _ e (λ dest.
            proceed-Ends s a (of_option nil_pointer (bs symbol)) _ e (λ b.
              send-Ends s a b
                (build_refund_tx_from_tree x
                  (spend_params l t x a symbol a.swap.local_funding_tx_id a.swap.local_funding_vout
                    amount dest (rate_or_default (hour b.fees)) (some d.local_priv_key))
                  tree)
                e))))

  cache_tree-swap :
      (symbol : String) (tree : TaprootScriptTree c) (a : ActiveSwap l t) (d : Musig2Data l t)
      → (cache_tree l t x symbol tree a d).swap ≡ a.swap
  unfolding cache_tree
  cache_tree-swap symbol tree a d = ground arith

  refund_data-Ends :
      (bs : Backends) (derive : Derive l t x) (trade symbol : String) (a : ActiveSwap l t)
      (o : Option (Musig2Data l t))
      → Ends a.swap (refund_data l t x bs derive trade symbol a o)
  unfolding refund_data
  refund_data-Ends bs derive trade symbol a none = inl refl
  refund_data-Ends bs derive trade symbol a (some d) =
      proceed-Ends a.swap a (chain_of l t x symbol a d) _ refl (λ m.
        proceed-Ends a.swap a (find_tree l t x symbol a d m.session) _ refl (λ tree.
          refund_leg-Ends bs derive trade symbol a.swap (cache_tree l t x symbol tree a d) d tree
            (cache_tree-swap symbol tree a d)))

  -- A refund of the monitor, of a chain with the given timeout.
  chain-Ends :
      (bs : Backends) (derive : Derive l t x) (trade : String) (a : ActiveSwap l t)
      (symbol : String) (timeout : ℕ)
      → let r = check_timeout_for_chain l t x bs derive trade a symbol timeout in
        (r.active.swap ≡ a.swap)
        ⊎ ((leb timeout (or_zero (get_block_height bs symbol)) ≡ true)
            × (r.active.swap ≡ record a.swap { state = refunded }))
  unfolding check_timeout_for_chain build_and_broadcast_refund
  chain-Ends bs derive trade a symbol timeout = elim (Result-cases (get_block_height bs symbol)) [
    | inr (d, e) ↦ rw (check_timeout_for_chain, e) (inl refl)
    | inl (h, e) ↦ elim (Bool-cases (leb timeout h)) [
      | inr early ↦ rw (check_timeout_for_chain, e, early) (inl refl)
      | inl late ↦ elim (refund_data-Ends bs derive trade symbol a a.musig2_data) [
        | inl same ↦ rw (check_timeout_for_chain, e, late) (inl same)
        | inr moved ↦ rw (check_timeout_for_chain, e, late) (inr (refl, moved))
      ]
    ]
  ]

  -- What the monitor may do with a swap: leave it, or refund it where the diagram and the heights
  -- allow that.
  abbrev pub Watched : Backends → ActiveSwap l t → ActiveSwap l t → Type 0
  Watched bs a a' =
      let offer_height = or_zero (get_block_height bs a.swap.offer.offer_chain) in
      let request_height = or_zero (get_block_height bs a.swap.offer.request_chain) in
      (a'.swap ≡ a.swap)
      ⊎ ((a.swap.state ⟶ refunded)
          × (can_refund_by_block a.swap offer_height request_height ≡ true)
          × (a'.swap ≡ record a.swap { state = refunded }))

  edge_to_refunded : (s : State) → (state_eq s funded || state_eq s funding) ≡ true → s ⟶ refunded
  edge_to_refunded funded h = refund
  edge_to_refunded funding h = refund_partial
  edge_to_refunded none_state h = absurd cc
  edge_to_refunded init h = absurd cc
  edge_to_refunded redeemed h = absurd cc
  edge_to_refunded refunded h = absurd cc
  edge_to_refunded failed h = absurd cc
  edge_to_refunded cancelled h = absurd cc
  edge_to_refunded (other s) h = absurd cc

  Watched-of :
      {A : Type 0} (bs : Backends) (a : ActiveSwap l t) (r : Reply l t A) (symbol : String)
      (timeout : ℕ)
      → (a.swap.state ⟶ refunded)
      → (leb timeout (or_zero (get_block_height bs symbol)) ≡ true
          → can_refund_by_block a.swap
              (or_zero (get_block_height bs a.swap.offer.offer_chain))
              (or_zero (get_block_height bs a.swap.offer.request_chain))
            ≡ true)
      → (r.active.swap ≡ a.swap)
        ⊎ ((leb timeout (or_zero (get_block_height bs symbol)) ≡ true)
            × (r.active.swap ≡ record a.swap { state = refunded }))
      → Watched bs a r.active
  Watched-of bs a r symbol timeout edge late (inl same) = inl same
  Watched-of bs a r symbol timeout edge late (inr (h, moved)) = inr (edge, late h, moved)

  check_swap-Watched :
      (bs : Backends) (derive : Derive l t x) (trade : String) (a : ActiveSwap l t)
      → Watched bs a (left_by l t x a (check_swap l t x bs derive trade a))
  unfolding check_swap
  check_swap-Watched bs derive trade a =
      let s = a.swap in
      elim (Bool-cases (state_eq s.state funded || state_eq s.state funding)) [
        | inr idle ↦ rw (check_swap, idle) (inl refl)
        | inl busy ↦
            let edge = edge_to_refunded s.state busy in
            elim (Bool-cases (is_initiator s.role)) [
              | inl maker ↦ elim (Bool-cases (ltb 0 s.offer_chain_timeout_height)) [
                | inr unset ↦ rw (check_swap, busy, maker, unset) (inl refl)
                | inl set ↦
                    rw (check_swap, busy, maker, set)
                      (Watched-of bs a
                        (check_timeout_for_chain l t x bs derive trade a s.offer.offer_chain
                          s.offer_chain_timeout_height)
                        s.offer.offer_chain s.offer_chain_timeout_height edge
                        (can_refund_maker s _ _ maker)
                        (chain-Ends bs derive trade a s.offer.offer_chain
                          s.offer_chain_timeout_height))
              ]
              | inr taker ↦ elim (Bool-cases (ltb 0 s.request_chain_timeout_height)) [
                | inr unset ↦ rw (check_swap, busy, taker, unset) (inl refl)
                | inl set ↦
                    rw (check_swap, busy, taker, set)
                      (Watched-of bs a
                        (check_timeout_for_chain l t x bs derive trade a s.offer.request_chain
                          s.request_chain_timeout_height)
                        s.offer.request_chain s.request_chain_timeout_height edge
                        (can_refund_taker s _ _ taker)
                        (chain-Ends bs derive trade a s.offer.request_chain
                          s.request_chain_timeout_height))
              ]
            ]
      ]

  check_all-lookup :
      (bs : Backends) (derive : Derive l t x) (j : String) (m : List (String × ActiveSwap l t))
      {a : ActiveSwap l t}
      → lookup j m ≡ some a
      → lookup j (check_all l t x bs derive m).0
        ≡ some (left_by l t x a (check_swap l t x bs derive j a))
  unfolding check_all
  check_all-lookup bs derive j [] h = absurd cc
  check_all-lookup bs derive j ((k, b) ∷ m) {a} h = elim (Bool-cases (str_eq k j)) [
    | inl e ↦
        let same = (eq_iff k j).0 e in
        let f : b ≡ a = cc (rw e at h) in rw (check_all, e, f, same) refl
    | inr e ↦ rw (check_all, e) (check_all-lookup bs derive j m (rw e at h))
  ]

  -- `CheckTimeouts` loses no swap, and does one of two things with each: it leaves the swap as it
  -- was, or it makes the swap refunded, and then the diagram has that edge and `CanRefundByBlock`
  -- holds at the heights that the backends give.
  pub check_timeouts-Watched :
      (bs : Backends) (derive : Derive l t x) (j : String) (s : Coordinator l t)
      {a : ActiveSwap l t}
      → lookup j s.swaps ≡ some a
      → (a' : ActiveSwap l t) × (lookup j (check_timeouts l t x bs derive s).0.swaps ≡ some a')
        × Watched bs a a'
  unfolding check_timeouts
  check_timeouts-Watched bs derive j s {a} h = (
    left_by l t x a (check_swap l t x bs derive j a),
    check_all-lookup bs derive j s.swaps h,
    check_swap-Watched bs derive j a,
  )

  chain_without :
      (bs : Backends) (derive : Derive l t x) (trade : String) (a : ActiveSwap l t)
      (symbol : String) (timeout : ℕ)
      → a.musig2_data ≡ none
      → (check_timeout_for_chain l t x bs derive trade a symbol timeout).active ≡ a
  unfolding check_timeout_for_chain build_and_broadcast_refund refund_data
  chain_without bs derive trade a symbol timeout h =
      elim (Result-cases (get_block_height bs symbol)) [
        | inr (d, e) ↦ rw (check_timeout_for_chain, e) refl
        | inl (n, e) ↦ elim (Bool-cases (leb timeout n)) [
          | inr early ↦ rw (check_timeout_for_chain, e, early) refl
          | inl late ↦ rw (check_timeout_for_chain, e, late, h) refl
        ]
      ]

  -- `CheckTimeouts` leaves a swap without MuSig2 data, and so each HTLC swap, as it is, at every
  -- height: its timeout alone never refunds it.
  pub check_timeouts-SkipsHtlc :
      (bs : Backends) (derive : Derive l t x) (j : String) (s : Coordinator l t)
      {a : ActiveSwap l t}
      → lookup j s.swaps ≡ some a
      → a.musig2_data ≡ none
      → lookup j (check_timeouts l t x bs derive s).0.swaps ≡ some a
  unfolding check_timeouts check_swap
  check_timeouts-SkipsHtlc bs derive j s {a} h e =
      check_all-lookup bs derive j s.swaps h
      ∙ ap some (
          ground (
            arith,
            chain_without bs derive j a a.swap.offer.offer_chain a.swap.offer_chain_timeout_height
                e,
            chain_without bs derive j a a.swap.offer.request_chain
                a.swap.request_chain_timeout_height e,
          ))
