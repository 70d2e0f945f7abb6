-- ===== src/Sync/Orders/Merge.antt =====
-- What a sync makes of the orders that a node has.
mod Tests
use klingdex.Prelude.{
  ℕ, ◌+◌, ◌<◌, ◌^◌, String, Bool, true, false, ◌≡◌, refl, sym, ◌∙◌, ◌⊎◌, inl, inr, Option, none,
  some, List, [], ◌∷◌, ◌++◌, arith, ltb, if◌then◌else◌, eq_iff, Result, ok, err, Bool-cases,
  Option-cases, ltb→lt,
}
use klingdex.Tables.{
  update_where, find_where, find-update, find-update_self, find_where-true, any_where-find,
  find-snoc_some, find-snoc_none, any_where_of_none,
}
use klingdex.Storage.Orders.{
  Order, has_id, inserted, merged, get_order, create_order, save_order, has_storable_amounts,
}
use klingdex.Sync.Orders.{stored, sync_order, sync_orders, no_validator}

-- The four steps of `sync_order`.
sync_order_invalid :
    (valid : Order → Bool) (o : Order) (rows : List Order)
    → valid o ≡ false
    → sync_order valid o rows ≡ (rows, 0)
unfolding sync_order
sync_order_invalid valid o rows h = rw h refl

abbrev fresh : Order → Order
fresh o = inserted (record o { is_local = false })

-- An order that the database cannot store.
sync_order_unstorable :
    (valid : Order → Bool) (o : Order) (rows : List Order)
    → has_storable_amounts o ≡ false
    → sync_order valid o rows ≡ (rows, 0)
unfolding sync_order create_order save_order
sync_order_unstorable valid o rows h = elim (Bool-cases (valid o)) [
  | inr bad ↦ sync_order_invalid valid o rows bad
  | inl good ↦ elim (Option-cases (get_order o.id rows)) [
    | inl missing ↦ rw (good, sync_order, missing, h) refl
    | inr (old, e) ↦ elim (Bool-cases (ltb old.created_at o.created_at)) [
      | inl early ↦ rw (good, sync_order, e, early, h) refl
      | inr late ↦ rw (good, sync_order, e, late) refl
    ]
  ]
]

sync_order_new :
    (valid : Order → Bool) (o : Order) (rows : List Order)
    → valid o ≡ true
    → get_order o.id rows ≡ none
    → has_storable_amounts o ≡ true
    → sync_order valid o rows ≡ (rows ++ (fresh o ∷ []), 1)
unfolding sync_order get_order create_order
sync_order_new valid o rows h k small =
    rw (h, sync_order, k, small, any_where_of_none (has_id o.id) rows k) refl

sync_order_old :
    (valid : Order → Bool) (o old : Order) (rows : List Order)
    → valid o ≡ true
    → get_order o.id rows ≡ some old
    → ltb old.created_at o.created_at ≡ false
    → sync_order valid o rows ≡ (rows, 0)
unfolding sync_order get_order
sync_order_old valid o old rows h k w = rw (h, sync_order, k, w) refl

sync_order_newer :
    (valid : Order → Bool) (o old : Order) (rows : List Order)
    → valid o ≡ true
    → get_order o.id rows ≡ some old
    → ltb old.created_at o.created_at ≡ true
    → has_storable_amounts o ≡ true
    → sync_order valid o rows ≡ (update_where (has_id o.id) (merged o) rows, 0)
unfolding sync_order get_order save_order
sync_order_newer valid o old rows h k w small =
    rw (h, sync_order, k, w, small, any_where-find (has_id o.id) rows k) refl

-- A valid order of an answer says that `m` is to become `m'`.
abbrev pub Says : (Order → Bool) → Order → Order → List Order → Type 0
Says valid m m' [] = ⊥
Says valid m m' (o ∷ os) =
    ((valid o ≡ true)
      × (o.id ≡ m.id)
      × (m.created_at < o.created_at)
      × (m' ≡ record m { status = o.status; expires_at = o.expires_at }))
    ⊎ Says valid m m' os

same_order :
    (i j : String) (rows : List Order) {m old : Order}
    → find_where (has_id i) rows ≡ some m
    → find_where (has_id j) rows ≡ some old
    → has_id j m ≡ true
    → old ≡ m
same_order i j rows {m} {old} h k e =
    let a = (eq_iff m.id i).0 (find_where-true (has_id i) rows h) in
    let b = (eq_iff m.id j).0 e in let h' = rw (sym a, b) at h in cc

sync_order-Says :
    (valid : Order → Bool) (o : Order) (i : String) (rows : List Order) {m : Order}
    → get_order i rows ≡ some m
    → (m' : Order) × (get_order i (sync_order valid o rows).0 ≡ some m')
      × ((m' ≡ m) ⊎ Says valid m m' (o ∷ []))
unfolding get_order
sync_order-Says valid o i rows {m} h = elim (Bool-cases (valid o)) [
  | inr bad ↦ rw (sync_order_invalid valid o rows bad) (m, h, inl refl)
  | inl good ↦ elim (Bool-cases (has_storable_amounts o)) [
    | inr unstorable ↦ rw (sync_order_unstorable valid o rows unstorable) (m, h, inl refl)
    | inl small ↦ elim (Option-cases (get_order o.id rows)) [
      | inl missing ↦
          rw (sync_order_new valid o rows good missing small)
            (m, find-snoc_some (has_id i) rows (fresh o) h, inl refl)
      | inr (old, e) ↦ elim (Bool-cases (ltb old.created_at o.created_at)) [
        | inr late ↦ rw (sync_order_old valid o old rows good e late) (m, h, inl refl)
        | inl early ↦
            let k = find-update (has_id i) (has_id o.id) (merged o) rows (λ a. refl) in
            rw (sync_order_newer valid o old rows good e early small)
              (elim (Bool-cases (has_id o.id m)) [
                | inr other ↦ (m, k ∙ rw (h, other) refl, inl refl)
                | inl same ↦
                    let f = same_order i o.id rows h e same in
                    (
                      merged o m,
                      k ∙ rw (h, same) refl,
                      inr (
                          inl (
                            good,
                            sym ((eq_iff m.id o.id).0 same),
                            rw f at (ltb→lt old.created_at o.created_at early),
                            refl,
                          )),
                    )
              ])
      ]
    ]
  ]
]

-- An order that an earlier order of the answer has set.
Says-after :
    (valid : Order → Bool) (o m m' : Order) (os : List Order)
    → Says valid (merged o m) m' os
    → Says valid m m' os
Says-after valid o m m' [] h = absurd h
Says-after valid o m m' (p ∷ ps) (inl (a, b, c, d)) = inl (a, b, c, d)
Says-after valid o m m' (p ∷ ps) (inr h) = inr (Says-after valid o m m' ps h)

-- Syncing with a peer loses no order: each order that was there stays as it was, or a valid order
-- of the answer with its id and a later creation time sets its status and its expiry, and nothing
-- else of it.
pub sync_orders-Says :
    (valid : Order → Bool) (answer : List Order) (i : String) (rows : List Order) {m : Order}
    → get_order i rows ≡ some m
    → (m' : Order) × (get_order i (sync_orders valid answer rows).0 ≡ some m')
      × ((m' ≡ m) ⊎ Says valid m m' answer)
unfolding sync_orders
sync_orders-Says valid [] i rows {m} h = (m, h, inl refl)
sync_orders-Says valid (o ∷ os) i rows {m} h =
    let (a, ea, fa) = sync_order-Says valid o i rows h in
    let (b, eb, fb) = sync_orders-Says valid os i (sync_order valid o rows).0 ea in
    (
      b,
      eb,
      elim fa [
        | inl same ↦ elim fb [
          | inl equal ↦ inl (equal ∙ same)
          | inr says ↦ inr (inr (rw same at says))
        ]
        | inr (inl (v, d, l, e)) ↦ elim fb [
          | inl equal ↦ inr (inl (v, d, l, equal ∙ e))
          | inr says ↦ inr (inr (Says-after valid o m b os (rw e at says)))
        ]
        | inr (inr impossible) ↦ absurd impossible
      ],
    )

-- The node has no validator, so that an order of a peer, with amounts below `2 ^ 63`, which has the
-- id of an order of ours and a later creation time sets the status of ours, and does so again at
-- the next sync.
pub sync_order-Overwrites :
    (o : Order) (rows : List Order) {m : Order}
    → get_order o.id rows ≡ some m
    → m.is_local ≡ true
    → m.created_at < o.created_at
    → o.offer_amount < 2 ^ 63
    → o.request_amount < 2 ^ 63
    → (m' : Order) × (get_order o.id (sync_order no_validator o rows).0 ≡ some m')
      × (m'.status ≡ o.status)
      × (m'.is_local ≡ true)
      × (m'.created_at < o.created_at)
unfolding get_order
sync_order-Overwrites o rows {m} h local less small small' = (
  merged o m,
  rw (sync_order_newer no_validator o m rows refl h (ground arith) (ground arith))
      (find-update_self (has_id o.id) (merged o) rows (λ a. refl) h),
  refl,
  local,
  less,
)
