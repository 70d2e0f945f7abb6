-- ===== src/Swap/Coordinator/Lifecycle.antt =====
-- When a handler of the coordinator moves a swap to another state, and when it signs.
use mathlib.Core.Path.{subst}
use klingdex.Prelude.{
  ℕ, String, Bool, true, false, ◌&&◌, ◌≡◌, ◌≢◌, refl, ap, ◌∙◌, ◌⊎◌, ◌↔◌, inl, inr, Option, none,
  some, List, [], ◌∷◌, Result, ok, err, if◌then◌else◌, str_eq, arith, Bool-cases, length,
}
use klingdex.Swap.Crypto.{Crypto}
use klingdex.Swap.Txscript.{Txscript}
use klingdex.Swap.Musig2Lib.{Musig2Lib}
use klingdex.Swap.Types.{State, init, funding, funded, redeemed, refunded, Swap, SwapError, Role}
use klingdex.Swap.State.{state_eq, transition_to, transition_to_iff, ◌⟶◌}
use klingdex.Swap.Heights.{can_refund_by_block}
use klingdex.Swap.Confirmations.{
  is_funding_confirmed, local_chain, remote_chain, update_local_confirmations,
  update_remote_confirmations,
}
use klingdex.Swap.Coordinator.{
  CoordError, Backends, get_block_height, or_zero, ActiveSwap, Reply, announce, fail, swap_error,
  get_confirmations,
}
use klingdex.Swap.Coordinator.Tracking.{
  set_funding_tx, update_confirmations, refresh_counts, complete_swap, refund_swap, move,
  record_funding, count_local, count_remote,
}

-- Any number of edges of the diagram.
pub data Reach : State → State → Type 0 where
  stay : {s : State} → Reach s s
  go : {s u v : State} → s ⟶ u → Reach u v → Reach s v

module _ {c : Crypto} (l : Musig2Lib c) (t : Txscript) where
  open l use {Signature}

  count_local-state : (r : Result CoordError ℕ) (s : Swap) → (count_local r s).state ≡ s.state
  unfolding count_local update_local_confirmations
  count_local-state (ok n) s = refl
  count_local-state (err e) s = refl

  count_remote-state : (r : Result CoordError ℕ) (s : Swap) → (count_remote r s).state ≡ s.state
  unfolding count_remote update_remote_confirmations
  count_remote-state (ok n) s = refl
  count_remote-state (err e) s = refl

  if-state :
      (b : Bool) (s s' : Swap) {u : State}
      → s.state ≡ u
      → s'.state ≡ u
      → (if b then s else s').state ≡ u
  if-state true s s' h h' = h
  if-state false s s' h h' = h'

  refresh_counts-state : (bs : Backends) (s : Swap) → (refresh_counts bs s).state ≡ s.state
  unfolding refresh_counts
  refresh_counts-state bs s =
      let x = count_local (get_confirmations bs (local_chain s) s.local_funding_tx_id) s in
      let y = if str_eq s.local_funding_tx_id "" then s else x in
      let z = count_remote (get_confirmations bs (remote_chain y) y.remote_funding_tx_id) y in
      let hx = count_local-state (get_confirmations bs (local_chain s) s.local_funding_tx_id) s in
      let hy = if-state (str_eq s.local_funding_tx_id "") s x refl hx in
      if-state (str_eq y.remote_funding_tx_id "") y z hy
        (count_remote-state (get_confirmations bs (remote_chain y) y.remote_funding_tx_id) y ∙ hy)

  -- A transition and its event: to the new state along an edge, or no change of state.
  move-by_cases :
      (event : String) (a : ActiveSwap l t) (p : Swap × Option SwapError)
      → ((p.1 ≡ none) × (move l t event a p ≡ announce l t event (record a { swap = p.0 }) tt))
        ⊎ ((e : SwapError) × (p.1 ≡ some e)
            × (move l t event a p ≡ fail l t (record a { swap = p.0 }) (swap_error e)))
  unfolding move
  move-by_cases event a (s, none) = inl (refl, refl)
  move-by_cases event a (s, some e) = inr (e, refl, refl)

  -- What a handler that moves the swap does: it succeeds along an edge of the diagram, or fails and
  -- leaves the state.
  abbrev Moves : Swap → State → Reply l t (Unit {0}) → Type 0
  Moves s u r =
      ((r.result ≡ ok tt) × (s.state ⟶ u) × (r.active.swap ≡ record s { state = u }))
      ⊎ ((r.result ≢ ok tt) × (r.active.swap.state ≡ s.state))

  transition_to-state :
      (s : Swap) (u : State) {e : SwapError}
      → (transition_to s u).1 ≡ some e
      → (transition_to s u).0 ≡ s
  unfolding transition_to
  transition_to-state s u h = ground arith

  move-Moves :
      (event : String) (a : ActiveSwap l t) (s : Swap) (u : State)
      → Moves s u (move l t event a (transition_to s u))
  move-Moves event a s u =
      let ((to, from), moved, stays) = transition_to_iff s u in
      elim (move-by_cases event a (transition_to s u)) [
        | inl (e, m) ↦ inl (rw m refl, to e, rw m (moved (to e)))
        | inr (x, e, m) ↦
            inr (rw m (λ h. absurd cc), rw m (ap (λ z. z.state) (transition_to-state s u e)))
      ]

  -- The handlers that record funding and end a swap.
  pub data Call : Type 0 where
    fund : String → ℕ → Bool → Call
    count : Backends → Call
    complete : Call
    refund_at : Backends → Call

  step : Call → ActiveSwap l t → ActiveSwap l t
  step (fund tx vout is_local) a = (set_funding_tx l t tx vout is_local a).active
  step (count bs) a = (update_confirmations l t bs a).active
  step complete a = (complete_swap l t a).active
  step (refund_at bs) a = (refund_swap l t bs a).active

  pub run : List Call → ActiveSwap l t → ActiveSwap l t
  run [] a = a
  run (x ∷ xs) a = run xs (step x a)

  Moves-Reaches :
      (s : Swap) (u : State) (r : Reply l t (Unit {0}))
      → Moves s u r
      → (r.active.swap.state ≡ s.state) ⊎ (s.state ⟶ r.active.swap.state)
  Moves-Reaches s u r (inl (_, e, h)) = inr (rw h e)
  Moves-Reaches s u r (inr (_, h)) = inl h

  move-Follows :
      (event : String) (a : ActiveSwap l t) (s : Swap) (u : State)
      → let r = move l t event a (transition_to s u) in
        (r.active.swap.state ≡ s.state) ⊎ (s.state ⟶ r.active.swap.state)
  move-Follows event a s u =
      Moves-Reaches s u (move l t event a (transition_to s u)) (move-Moves event a s u)

  edge-move :
      (event : String) (a : ActiveSwap l t) (s : Swap) (u : State)
      → s.state ⟶ u
      → (move l t event a (transition_to s u)).result ≡ ok tt
  edge-move event a s u e = elim (move-by_cases event a (transition_to s u)) [
    | inl (f, m) ↦ rw m refl
    | inr (x, f, m) ↦ absurd (let g = (transition_to_iff s u).0.1 e in cc)
  ]

  record_funding-state :
      (tx : String) (vout : ℕ) (b : Bool) (s : Swap) → (record_funding tx vout b s).state ≡ s.state
  unfolding record_funding
  record_funding-state tx vout true s = refl
  record_funding-state tx vout false s = refl

  step-Follows :
      (x : Call) (a : ActiveSwap l t)
      → ((step x a).swap.state ≡ a.swap.state) ⊎ (a.swap.state ⟶ (step x a).swap.state)
  unfolding step set_funding_tx update_confirmations complete_swap refund_swap
  step-Follows (fund tx vout b) a =
      let s = record_funding tx vout b a.swap in
      let e = record_funding-state tx vout b a.swap in
      elim (Bool-cases (state_eq s.state init)) [
        | inl f ↦ rw (step, set_funding_tx, f) (rw e at (move-Follows "funding_set" a s funding))
        | inr f ↦ rw (step, set_funding_tx, f) (inl e)
      ]
  step-Follows (count bs) a =
      let s = refresh_counts bs a.swap in
      let e = refresh_counts-state bs a.swap in
      elim (Bool-cases (state_eq s.state funding && is_funding_confirmed s)) [
        | inl f ↦
            rw (step, update_confirmations, f)
              (rw e at (move-Follows "funding_confirmed" a s funded))
        | inr f ↦ rw (step, update_confirmations, f) (inl e)
      ]
  step-Follows complete a = move-Follows "swap_completed" a a.swap redeemed
  step-Follows (refund_at bs) a =
      elim (Bool-cases (
        can_refund_by_block a.swap (or_zero (get_block_height bs a.swap.offer.offer_chain))
          (or_zero (get_block_height bs a.swap.offer.request_chain)))) [
            | inl f ↦ rw (step, refund_swap, f) (move-Follows "swap_refunded" a a.swap refunded)
            | inr f ↦ rw (step, refund_swap, f) (inl refl)
          ]

  -- Under any sequence of the handlers that record funding, update confirmations, complete and
  -- refund a swap, whatever the backends answer, its state moves only along the edges of the
  -- diagram.
  pub run-Reach : (xs : List Call) (a : ActiveSwap l t) → Reach a.swap.state (run xs a).swap.state
  unfolding run
  run-Reach [] a = stay
  run-Reach (x ∷ xs) a = elim (step-Follows x a) [
    | inl e ↦ subst (λ u. Reach u (run xs (step x a)).swap.state) e (run-Reach xs (step x a))
    | inr e ↦ go e (run-Reach xs (step x a))
  ]

  -- `RefundSwap` succeeds exactly if the party's own chain has reached its timeout height and the
  -- diagram has an edge to `refunded`.
  pub refund_swap_iff :
      (bs : Backends) (a : ActiveSwap l t)
      → let due =
          can_refund_by_block a.swap
            (or_zero (get_block_height bs a.swap.offer.offer_chain))
            (or_zero (get_block_height bs a.swap.offer.request_chain)) in
        ((refund_swap l t bs a).result ≡ ok tt) ↔ ((due ≡ true) × (a.swap.state ⟶ refunded))
  unfolding refund_swap
  refund_swap_iff bs a =
      elim (Bool-cases (
        can_refund_by_block a.swap (or_zero (get_block_height bs a.swap.offer.offer_chain))
          (or_zero (get_block_height bs a.swap.offer.request_chain)))) [
            | inr f ↦ rw (refund_swap, f) (λ h. absurd cc, λ (d, e). absurd cc)
            | inl f ↦
                rw (refund_swap, f)
                  (elim (move-Moves "swap_refunded" a a.swap refunded) [
                    | inl (fine, e, _) ↦ (λ h. (refl, e), λ d. fine)
                    | inr (bad, _) ↦ (
                      λ h. absurd (bad h),
                      λ (d, e). edge-move "swap_refunded" a a.swap refunded e,
                    )
                  ])
          ]

  -- The tests of `CreatePartialSignatures` on the state, the heights and the hashes. A party that
  -- takes either role's reading of the swap may not refund yet.
  abbrev pub Signable : Backends → List ℕ → List ℕ → ActiveSwap l t → Type 0
  Signable bs h h' a =
      let x = or_zero (get_block_height bs a.swap.offer.offer_chain) in
      let y = or_zero (get_block_height bs a.swap.offer.request_chain) in
      (a.swap.state ≡ funded)
      × (length h ≡ 32)
      × (length h' ≡ 32)
      × ((r : Role) → can_refund_by_block (record a.swap { role = r }) x y ≡ false)

  -- An error that leaves the swap and its sessions as they were, and emits nothing.
  abbrev pub Refuses : {A : Type 0} → ActiveSwap l t → Reply l t A → Type 0
  Refuses a r = (r.active ≡ a) × (r.emitted ≡ []) × ((e : CoordError) × (r.result ≡ err e))
