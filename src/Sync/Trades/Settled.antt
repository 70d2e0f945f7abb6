-- ===== src/Sync/Trades/Settled.antt =====
-- What a sync makes of an answer that comes a second time.
mod Tests
use klingdex.Prelude.{
  ℕ, ◌+◌, ◌≤◌, ◌<◌, ◌^◌, String, Bool, true, false, ◌||◌, ◌≡◌, refl, sym, ◌∙◌, ap, ◌⊎◌, inl, inr,
  Option, none, some, List, [], ◌∷◌, ◌++◌, arith, ltb, if◌then◌else◌, str_eq, eq_iff, Result, ok,
  err, Bool-cases, Option-cases, All, ltb→lt,
}
use klingdex.Tables.{
  update_where, find_where, any_where, find-update, find-update_self, find_where-true,
  any_where-find, find-snoc_some, find-snoc_none, any_where_of_none,
}
use klingdex.Storage.Trades.{
  Trade, TradeState, TradeError, has_storable_amounts, has_id, inserted, moved, is_terminal,
  get_trade, create_trade, update_trade, update_trade_state,
}
use klingdex.Sync.Trades.{
  state_order, should_update_trade_state, takes_part, stored, sync_trade, sync_trades,
}
use klingdex.Sync.Trades.Merge.{
  sync_trade_other, sync_trade_new, sync_trade_old, sync_trade-moved, Follows, Keeps,
  sync_trade-Keeps,
}

-- Amounts that the database can store.
abbrev pub HasSmallAmounts : Trade → Type 0
HasSmallAmounts t = (t.offer_amount < 2 ^ 63) × (t.request_amount < 2 ^ 63)

-- Nothing is left to do for a trade of an answer.
Settled : String → Trade → List Trade → Type 0
Settled me t rows =
    (takes_part me t ≡ false)
    ⊎ ((m : Trade) × (get_trade t.id rows ≡ some m) × (state_order t.state ≤ state_order m.state))

Settled-sync :
    (me : String) (now : ℕ) (t : Trade) (rows : List Trade)
    → Settled me t rows
    → sync_trade me now t rows ≡ (rows, 0)
unfolding Settled should_update_trade_state
Settled-sync me now t rows (inl other) = sync_trade_other me now t rows other
Settled-sync me now t rows (inr (m, e, le)) = elim (Bool-cases (takes_part me t)) [
  | inr other ↦ sync_trade_other me now t rows other
  | inl mine ↦ sync_trade_old me now t m rows mine e (ground arith)
]

Follows-le : (m m' : Trade) → Follows m m' → state_order m.state ≤ state_order m'.state
Follows-le m m' (inl same, _) = rw same (omega arith)
Follows-le m m' (inr less, _) = omega arith

Settled-Keeps :
    (me : String) (now : ℕ) (t u : Trade) (rows : List Trade)
    → Settled me t rows
    → Settled me t (sync_trade me now u rows).0
unfolding Settled Keeps
Settled-Keeps me now t u rows (inl other) = inl other
Settled-Keeps me now t u rows (inr (m, e, le)) =
    let (m', e', f) = sync_trade-Keeps me now u t.id rows e in
    inr (m', e', omega (arith, Follows-le m m' f))

sync_trade-Settled :
    (me : String) (now : ℕ) (t : Trade) (rows : List Trade)
    → HasSmallAmounts t
    → Settled me t (sync_trade me now t rows).0
unfolding Settled get_trade should_update_trade_state
sync_trade-Settled me now t rows (small, small') = elim (Bool-cases (takes_part me t)) [
  | inr other ↦ inl other
  | inl mine ↦ elim (Option-cases (get_trade t.id rows)) [
    | inl missing ↦ rw (sync_trade_new me now t rows mine missing (ground arith)) (
        inr (
          inserted t,
          find-snoc_none (has_id t.id) rows (inserted t) missing ((eq_iff t.id t.id).1 refl),
          omega arith,
        ))
    | inr (old, e) ↦ elim (Bool-cases (should_update_trade_state old.state t.state)) [
      | inr late ↦ rw (sync_trade_old me now t old rows mine e late) (inr (old, e, ground arith))
      | inl early ↦ rw (sync_trade-moved me now t old rows mine e early) (
          inr (
            moved now t.state old,
            find-update_self (has_id t.id) (moved now t.state) rows (λ a. refl) e,
            omega arith,
          ))
    ]
  ]
]

Settled-sync_all :
    (me : String) (now : ℕ) (t : Trade) (answer rows : List Trade)
    → Settled me t rows
    → Settled me t (sync_trades me now answer rows).0
unfolding sync_trades
Settled-sync_all me now t [] rows h = h
Settled-sync_all me now t (u ∷ us) rows h =
    Settled-sync_all me now t us (sync_trade me now u rows).0 (Settled-Keeps me now t u rows h)

sync_trades-Settled :
    (me : String) (now : ℕ) (answer rows : List Trade)
    → All HasSmallAmounts answer
    → All (λ t. Settled me t (sync_trades me now answer rows).0) answer
unfolding sync_trades
sync_trades-Settled me now [] rows h = tt
sync_trades-Settled me now (t ∷ ts) rows (h, hs) =
    let rows' = (sync_trade me now t rows).0 in
    (
      Settled-sync_all me now t ts rows' (sync_trade-Settled me now t rows h),
      sync_trades-Settled me now ts rows' hs,
    )

sync-Settled :
    (me : String) (now : ℕ) (answer rows : List Trade)
    → All (λ t. Settled me t rows) answer
    → sync_trades me now answer rows ≡ (rows, 0)
unfolding sync_trades
sync-Settled me now [] rows h = refl
sync-Settled me now (t ∷ ts) rows (h, hs) =
    rw (Settled-sync me now t rows h, sync-Settled me now ts rows hs) refl

-- An answer with amounts below `2 ^ 63` that comes a second time, at any time, changes nothing and
-- brings no new trade.
pub sync_trades-idempotent :
    (me : String) (now later : ℕ) (answer rows : List Trade)
    → All HasSmallAmounts answer
    → sync_trades me later answer (sync_trades me now answer rows).0
      ≡ ((sync_trades me now answer rows).0, 0)
sync_trades-idempotent me now later answer rows small =
    sync-Settled me later answer (sync_trades me now answer rows).0
      (sync_trades-Settled me now answer rows small)
