-- ===== src/Storage/Swaps/Recovery.antt =====
-- Which swaps a node finds again after a restart.
mod Tests
use klingdex.Prelude.{
  ◌<◌, ◌^◌, ℕ, ◌+◌, String, Bool, true, false, not, ◌≡◌, refl, sym, ◌∙◌, ap, inl, inr, Option, none,
  some, List, [], ◌∷◌, ◌++◌, arith, if◌then◌else◌, length, str_eq, eq_iff, Result, ok, err,
  Bool-cases, Option-cases,
}
use klingdex.Tables.{
  filter_where, find_where, any_where, update_where, order_with, ascending, upsert,
  find-update_self, find_where-true, find-snoc_none, any_where_of_none, any_where-find,
}
use klingdex.Tables.Unique.{Unique, Unique-update, Unique-snoc}
use klingdex.Tables.Order.{filter-order}
use klingdex.Swap.HtlcScript.{of_option}
use klingdex.Storage.Swaps.{
  SwapRecord, SwapState, swap_not_found, has_trade, stamped, overwritten, save_swap, read_swap,
  is_pending, is_terminal, get_pending_swaps, update_swap_state, swap_count,
}

-- One row for each trade.
abbrev pub same_trade : SwapRecord → SwapRecord → Bool
same_trade a b = has_trade a.trade_id b

filter_of_none :
    (q : SwapRecord → Bool) (rows : List SwapRecord)
    → any_where q rows ≡ false
    → filter_where q rows ≡ []
unfolding any_where filter_where
filter_of_none q [] h = refl
filter_of_none q (r ∷ rs) h = ground (arith, filter_of_none q rs)

filter_comm :
    (p q : SwapRecord → Bool) (rows : List SwapRecord)
    → filter_where p (filter_where q rows) ≡ filter_where q (filter_where p rows)
unfolding filter_where
filter_comm p q [] = refl
filter_comm p q (r ∷ rs) = ground (arith, filter_comm p q rs)

abbrev list_of : Option SwapRecord → List SwapRecord
list_of none = []
list_of (some r) = r ∷ []

-- The rows of a trade are the one that is found.
filter-find :
    (t : String) (rows : List SwapRecord)
    → Unique same_trade rows
    → filter_where (has_trade t) rows ≡ list_of (find_where (has_trade t) rows)
unfolding filter_where find_where
filter-find t [] d = refl
filter-find t (r ∷ rs) (fresh, d) = elim (Bool-cases (has_trade t r)) [
  | inr miss ↦ rw miss (filter-find t rs d)
  | inl hit ↦
      let k : any_where (has_trade t) rs ≡ false = rw ((eq_iff r.trade_id t).0 hit) at fresh in
      rw hit (ap (λ xs. r ∷ xs) (filter_of_none (has_trade t) rs k))
]

same_trade_comm : (a b : SwapRecord) → same_trade a b ≡ same_trade b a
same_trade_comm a b = ground (arith, eq_iff a.trade_id b.trade_id, eq_iff b.trade_id a.trade_id)

-- The table that a save which does not fail leaves.
abbrev saved_rows : ℕ → SwapRecord → List SwapRecord → List SwapRecord
saved_rows now s rows = upsert (has_trade s.trade_id) (overwritten now s) (stamped now s) rows

save_swap-Unique :
    (now : ℕ) (s : SwapRecord) (rows : List SwapRecord)
    → Unique same_trade rows
    → Unique same_trade (saved_rows now s rows)
unfolding upsert
save_swap-Unique now s rows d = elim (Bool-cases (any_where (has_trade s.trade_id) rows)) [
  | inl taken ↦ rw taken (
      Unique-update same_trade (has_trade s.trade_id) (overwritten now s) rows (λ a b. refl)
        (λ a b. refl) d)
  | inr fresh ↦ rw fresh (Unique-snoc same_trade rows (stamped now s) same_trade_comm fresh d)
]

-- Two copies of one trade: who trades what with whom.
abbrev pub SameTrade : SwapRecord → SwapRecord → Type 0
SameTrade a b =
    (a.trade_id ≡ b.trade_id)
    × (a.order_id ≡ b.order_id)
    × (a.maker_peer_id ≡ b.maker_peer_id)
    × (a.taker_peer_id ≡ b.taker_peer_id)
    × (a.our_role ≡ b.our_role)
    × (a.is_maker ≡ b.is_maker)
    × (a.offer_chain ≡ b.offer_chain)
    × (a.offer_amount ≡ b.offer_amount)
    × (a.request_chain ≡ b.request_chain)
    × (a.request_amount ≡ b.request_amount)

-- Two copies of a swap that stand at the same point.
abbrev pub SameProgress : SwapRecord → SwapRecord → Type 0
SameProgress a b =
    (a.state ≡ b.state)
    × (a.method_data ≡ b.method_data)
    × (a.local_funding_tx_id ≡ b.local_funding_tx_id)
    × (a.local_funding_vout ≡ b.local_funding_vout)
    × (a.remote_funding_tx_id ≡ b.remote_funding_tx_id)
    × (a.remote_funding_vout ≡ b.remote_funding_vout)
    × (a.timeout_height ≡ b.timeout_height)
    × (a.request_timeout_height ≡ b.request_timeout_height)
    × (a.timeout_timestamp ≡ b.timeout_timestamp)
    × (a.redeem_tx_id ≡ b.redeem_tx_id)
    × (a.refund_tx_id ≡ b.refund_tx_id)
    × (a.failure_reason ≡ b.failure_reason)
    × (a.completed_at ≡ b.completed_at)

abbrev pub or_else : SwapRecord → Option SwapRecord → SwapRecord
or_else s none = s
or_else s (some old) = old

-- What a save of `s` leaves of its trade, where `before` was there.
abbrev pub Saves : ℕ → SwapRecord → Option SwapRecord → SwapRecord → Type 0
Saves now s before r = SameTrade r (or_else s before) × SameProgress r s × (r.updated_at ≡ now)

stamped-Saves : (now : ℕ) (s : SwapRecord) → Saves now s none (stamped now s)
stamped-Saves now s = (
  (refl, refl, refl, refl, refl, refl, refl, refl, refl, refl),
  (refl, refl, refl, refl, refl, refl, refl, refl, refl, refl, refl, refl, refl),
  refl,
)

overwritten-Saves : (now : ℕ) (s old : SwapRecord) → Saves now s (some old) (overwritten now s old)
overwritten-Saves now s old = (
  (refl, refl, refl, refl, refl, refl, refl, refl, refl, refl),
  (refl, refl, refl, refl, refl, refl, refl, refl, refl, refl, refl, refl, refl),
  refl,
)

save_swap-found :
    (now : ℕ) (s : SwapRecord) (rows : List SwapRecord)
    → let t = s.trade_id in
      (r : SwapRecord) × (find_where (has_trade t) (saved_rows now s rows) ≡ some r)
      × Saves now s (find_where (has_trade t) rows) r
unfolding upsert
save_swap-found now s rows =
    let t = s.trade_id in
    elim (Option-cases (find_where (has_trade t) rows)) [
      | inl missing ↦ (
        stamped now s,
        rw (any_where_of_none (has_trade t) rows missing)
            (find-snoc_none (has_trade t) rows (stamped now s) missing ((eq_iff t t).1 refl)),
        rw missing (stamped-Saves now s),
      )
      | inr (old, e) ↦ (
        overwritten now s old,
        rw (any_where-find (has_trade t) rows e)
            (find-update_self (has_trade t) (overwritten now s) rows (λ r. refl) e),
        rw e (overwritten-Saves now s old),
      )
    ]

created_total :
    (a b : SwapRecord)
    → ascending (λ s. s.created_at) a b ≡ false
    → ascending (λ s. s.created_at) b a ≡ true
created_total a b h = ground arith

created_trans :
    (a b c : SwapRecord)
    → ascending (λ s. s.created_at) a b ≡ true
    → ascending (λ s. s.created_at) b c ≡ true
    → ascending (λ s. s.created_at) a c ≡ true
created_trans a b c h k = ground arith

pending-one :
    (t : String) (rows : List SwapRecord) {r : SwapRecord}
    → Unique same_trade rows
    → find_where (has_trade t) rows ≡ some r
    → filter_where (has_trade t) (get_pending_swaps rows)
      ≡ (if is_terminal r.state then [] else r ∷ [])
unfolding get_pending_swaps
pending-one t rows {r} d e =
    filter-order (ascending (λ s. s.created_at)) created_total created_trans (has_trade t)
      (filter_where is_pending rows)
    ∙ ap (order_with (ascending (λ s. s.created_at))) (
        filter_comm (has_trade t) is_pending rows
        ∙ ap (filter_where is_pending) (filter-find t rows d ∙ ap list_of e))
    ∙ (unfold order_with in unfold filter_where in ground arith)

-- In a table with one row for each trade, a swap with amounts below `2 ^ 63` is saved, and read
-- back with who trades what as it was first saved, with the state, the method data, the
-- transactions, the timeouts, the reason of a failure and the time of completion as they are saved
-- now, and with the time of the save. The swaps to recover hold it exactly once if its state is not
-- terminal, and else not at all.
pub save_swap-Recovers :
    (now : ℕ) (s : SwapRecord) (rows : List SwapRecord)
    → Unique same_trade rows
    → s.offer_amount < 2 ^ 63
    → s.request_amount < 2 ^ 63
    → (after : List SwapRecord) × (r : SwapRecord) × (save_swap now s rows ≡ ok after)
      × (read_swap s.trade_id after ≡ ok r)
      × Saves now s (find_where (has_trade s.trade_id) rows) r
      × (filter_where (has_trade s.trade_id) (get_pending_swaps after)
          ≡ (if is_terminal s.state then [] else r ∷ []))
unfolding read_swap save_swap
save_swap-Recovers now s rows d small small' =
    let (r, e, same) = save_swap-found now s rows in
    let d' : Unique same_trade (saved_rows now s rows) = save_swap-Unique now s rows d in
    let state : r.state ≡ s.state = same.1.0 in
    (
      saved_rows now s rows,
      r,
      ground arith,
      ap (of_option swap_not_found) e,
      same,
      pending-one s.trade_id (saved_rows now s rows) d' e
          ∙ ap (λ x. if is_terminal x then [] else r ∷ []) state,
    )
