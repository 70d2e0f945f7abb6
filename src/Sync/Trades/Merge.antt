-- ===== src/Sync/Trades/Merge.antt =====
-- What a sync makes of the trades that a node has, and of those that it does not have.
mod Tests
use klingdex.Prelude.{
  ℕ, ◌+◌, ◌≤◌, ◌<◌, String, Bool, true, false, ◌||◌, ◌≡◌, refl, sym, ◌∙◌, ap, ◌⊎◌, inl, inr, Option,
  none, some, List, [], ◌∷◌, ◌++◌, arith, ltb, if◌then◌else◌, str_eq, eq_iff, Result, ok, err,
  Bool-cases, Option-cases, All, ltb→lt,
}
use klingdex.Tables.{
  update_where, find_where, any_where, find-update, find-update_self, find_where-true,
  any_where-find, find-snoc_some, find-snoc_none, any_where_of_none,
}
use klingdex.Storage.Trades.{
  Trade, TradeState, TradeError, has_storable_amounts, has_id, inserted, moved, is_terminal,
  get_trade, create_trade, update_trade, update_trade_state,
}
use klingdex.Sync.Trades.{
  state_order, should_update_trade_state, takes_part, stored, sync_trade, sync_trades,
}

-- The four steps of `sync_trade`.
pub sync_trade_other :
    (me : String) (now : ℕ) (t : Trade) (rows : List Trade)
    → takes_part me t ≡ false
    → sync_trade me now t rows ≡ (rows, 0)
unfolding sync_trade
sync_trade_other me now t rows h = rw h refl

pub sync_trade_unstorable :
    (me : String) (now : ℕ) (t : Trade) (rows : List Trade)
    → takes_part me t ≡ true
    → get_trade t.id rows ≡ none
    → has_storable_amounts t ≡ false
    → sync_trade me now t rows ≡ (rows, 0)
unfolding sync_trade create_trade
sync_trade_unstorable me now t rows h k large = rw (h, sync_trade, k, large) refl

pub sync_trade_new :
    (me : String) (now : ℕ) (t : Trade) (rows : List Trade)
    → takes_part me t ≡ true
    → get_trade t.id rows ≡ none
    → has_storable_amounts t ≡ true
    → sync_trade me now t rows ≡ (rows ++ (inserted t ∷ []), 1)
unfolding sync_trade get_trade create_trade
sync_trade_new me now t rows h k small =
    rw (h, sync_trade, k, small, any_where_of_none (has_id t.id) rows k) refl

pub sync_trade_old :
    (me : String) (now : ℕ) (t old : Trade) (rows : List Trade)
    → takes_part me t ≡ true
    → get_trade t.id rows ≡ some old
    → should_update_trade_state old.state t.state ≡ false
    → sync_trade me now t rows ≡ (rows, 0)
unfolding sync_trade get_trade
sync_trade_old me now t old rows h k w = rw (h, sync_trade, k, w) refl

pub sync_trade-moved :
    (me : String) (now : ℕ) (t old : Trade) (rows : List Trade)
    → takes_part me t ≡ true
    → get_trade t.id rows ≡ some old
    → should_update_trade_state old.state t.state ≡ true
    → sync_trade me now t rows ≡ (update_where (has_id t.id) (moved now t.state) rows, 0)
unfolding sync_trade get_trade update_trade_state update_trade
sync_trade-moved me now t old rows h k w =
    rw (h, sync_trade, k, w, any_where-find (has_id t.id) rows k) refl

-- A trade after a sync: as it was, or in a later state, and changed in nothing else but its times.
abbrev pub Follows : Trade → Trade → Type 0
Follows m m' =
    ((m' ≡ m) ⊎ (state_order m.state < state_order m'.state))
    × (m'
        ≡ record m { state = m'.state; updated_at = m'.updated_at; completed_at = m'.completed_at })

unfoldable pub Keeps : Trade → Option Trade → Type 0
Keeps m o = (m' : Trade) × (o ≡ some m') × Follows m m'

same_trade :
    (i j : String) (rows : List Trade) {m old : Trade}
    → find_where (has_id i) rows ≡ some m
    → find_where (has_id j) rows ≡ some old
    → has_id j m ≡ true
    → old ≡ m
same_trade i j rows {m} {old} h k e =
    let a = (eq_iff m.id i).0 (find_where-true (has_id i) rows h) in
    let b = (eq_iff m.id j).0 e in let h' = rw (sym a, b) at h in cc

pub sync_trade-Keeps :
    (me : String) (now : ℕ) (t : Trade) (i : String) (rows : List Trade) {m : Trade}
    → get_trade i rows ≡ some m
    → Keeps m (get_trade i (sync_trade me now t rows).0)
unfolding get_trade Keeps should_update_trade_state
sync_trade-Keeps me now t i rows {m} h = elim (Bool-cases (takes_part me t)) [
  | inr other ↦ rw (sync_trade_other me now t rows other) (m, h, (inl refl, refl))
  | inl mine ↦ elim (Option-cases (get_trade t.id rows)) [
    | inl missing ↦ elim (Bool-cases (has_storable_amounts t)) [
      | inr large ↦
          rw (sync_trade_unstorable me now t rows mine missing large) (m, h, (inl refl, refl))
      | inl small ↦
          rw (sync_trade_new me now t rows mine missing small)
            (m, find-snoc_some (has_id i) rows (inserted t) h, (inl refl, refl))
    ]
    | inr (old, e) ↦ elim (Bool-cases (should_update_trade_state old.state t.state)) [
      | inr late ↦ rw (sync_trade_old me now t old rows mine e late) (m, h, (inl refl, refl))
      | inl early ↦
          let k = find-update (has_id i) (has_id t.id) (moved now t.state) rows (λ a. refl) in
          rw (sync_trade-moved me now t old rows mine e early) (elim (Bool-cases (has_id t.id m)) [
            | inr other ↦ (m, k ∙ rw (h, other) refl, (inl refl, refl))
            | inl same ↦
                let f = same_trade i t.id rows h e same in
                (
                  moved now t.state m,
                  k ∙ rw (h, same) refl,
                  (
                    inr (rw f at (ltb→lt (state_order old.state) (state_order t.state) early)),
                    refl,
                  ),
                )
          ])
    ]
  ]
]

Follows-trans : (a b c : Trade) → Follows a b → Follows b c → Follows a c
Follows-trans a b c (x, y) (z, w) = (
  elim x [
    | inl same ↦ rw same at z
    | inr less ↦ elim z [ inl same ↦ inr (rw same less) | inr more ↦ inr (omega arith) ]
  ],
  w
      ∙ ap
          (λ (t : Trade). record t {
            state = c.state;
            updated_at = c.updated_at;
            completed_at = c.completed_at;
          })
          y,
)

state_order_le : (s : TradeState) → state_order s ≤ 5
unfolding state_order
state_order_le s = ground arith

state_order_of_terminal : (s : TradeState) → is_terminal s ≡ true → state_order s ≡ 5
unfolding state_order
state_order_of_terminal s h = ground arith

terminal_last :
    (m m' : Trade)
    → is_terminal m.state ≡ true
    → (m' ≡ m) ⊎ (state_order m.state < state_order m'.state)
    → m' ≡ m
terminal_last m m' h (inl same) = same
terminal_last m m' h (inr less) =
    absurd (omega (arith, state_order_of_terminal m.state h, state_order_le m'.state))

-- Syncing with a peer loses no trade, and moves none back: each trade that was there stays as it
-- was, or goes to a later state of the order of states, and nothing else of it changes but its
-- times. So a trade in a terminal state stays as it was.
pub sync_trades-Follows :
    (me : String) (now : ℕ) (answer : List Trade) (i : String) (rows : List Trade) {m : Trade}
    → get_trade i rows ≡ some m
    → (m' : Trade) × (get_trade i (sync_trades me now answer rows).0 ≡ some m')
      × Follows m m'
      × ((is_terminal m.state ≡ false) ⊎ (m' ≡ m))
unfolding sync_trades Keeps
sync_trades-Follows me now [] i rows {m} h = (m, h, (inl refl, refl), inr refl)
sync_trades-Follows me now (t ∷ ts) i rows {m} h =
    let (a, ea, fa) = sync_trade-Keeps me now t i rows h in
    let (b, eb, fb, _) = sync_trades-Follows me now ts i (sync_trade me now t rows).0 ea in
    let f = Follows-trans m a b fa fb in
    (
      b,
      eb,
      f,
      elim (Bool-cases (is_terminal m.state)) [
        | inl final ↦ inr (terminal_last m b final f.0)
        | inr more ↦ inl more
      ],
    )

-- A trade that a node did not have, with amounts that the database can store, is stored with the
-- role that the other node has in it, and without the public keys.
pub sync_trade-Copies :
    (me : String) (now : ℕ) (t : Trade) (rows : List Trade)
    → takes_part me t ≡ true
    → get_trade t.id rows ≡ none
    → has_storable_amounts t ≡ true
    → (m : Trade) × (get_trade t.id (sync_trade me now t rows).0 ≡ some m)
      × (m.our_role ≡ t.our_role)
      × (m.maker_pub_key ≡ "")
      × (m.taker_pub_key ≡ "")
      × (m.state ≡ t.state)
unfolding get_trade
sync_trade-Copies me now t rows mine missing small = (
  inserted t,
  rw (sync_trade_new me now t rows mine missing small)
      (find-snoc_none (has_id t.id) rows (inserted t) missing ((eq_iff t.id t.id).1 refl)),
  refl,
  refl,
  refl,
  refl,
)
