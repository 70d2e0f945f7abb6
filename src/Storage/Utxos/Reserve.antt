-- ===== src/Storage/Utxos/Reserve.antt =====
-- Which outputs of the wallet can be spent, and what the statements keep.
mod Tests
use klingdex.Prelude.{
  ℕ, ◌+◌, ◌-◌, ◌^◌, ◌<◌, String, Bool, true, false, ◌&&◌, not, ◌≡◌, refl, sym, ap, ◌∙◌, Option,
  none, some, List, [], ◌∷◌, arith, ltb, leb, ◌==◌, if◌then◌else◌, str_eq, eq_iff, Result, ok, err,
  Bool-cases, Option-cases, inl, inr, ==_iff,
}
use klingdex.Tables.{
  update_where, filter_where, find_where, any_where, upsert, order_with, descending, find-update,
  find-update_self, any_where-find, find_where-true,
}
use klingdex.Tables.Unique.{Unique, Unique-update, Unique-filter, Unique-upsert}
use klingdex.Tables.Order.{sum_of-order, filter-order}
use klingdex.Utxos.Sort.{sum_of}
use klingdex.Storage.Utxos.{
  WalletUtxo, UtxoStatus, unconfirmed, confirmed, pending_spend, spent, status_eq, is_output,
  same_output, UtxoError, utxo_not_found, update_output, save_wallet_utxo, get_wallet_utxo,
  is_confirmed_on, get_spendable_utxos, mark_utxo_pending_spend, mark_utxo_spent,
  revert_utxo_pending_spend, update_utxo_confirmations, delete_spent_utxos, sum_amounts, sum_by,
  all_sums, get_total_balance, get_balance_by_status, refreshed, stamped, is_spent_before,
}

-- The changes of the table.
pub data Statement : Type 0 where
  save : WalletUtxo → Statement
  pending mark_spent : String → ℕ → String → Statement
  revert : String → ℕ → Statement
  confirm : String → ℕ → ℕ → ℕ → String → Statement
  delete_spent : ℕ → Statement

kept_or : Result UtxoError (List WalletUtxo) → List WalletUtxo → List WalletUtxo
kept_or (ok rows) old = rows
kept_or (err e) old = old

-- A statement at a time of the clock; one that finds no row changes nothing.
unfoldable pub execute : ℕ → Statement → List WalletUtxo → List WalletUtxo
unfolding kept_or
execute now (save u) rows = save_wallet_utxo now u rows
execute now (pending tx vout spend) rows =
    kept_or (mark_utxo_pending_spend now tx vout spend rows) rows
execute now (mark_spent tx vout spend) rows = kept_or (mark_utxo_spent now tx vout spend rows) rows
execute now (revert tx vout) rows = revert_utxo_pending_spend now tx vout rows
execute now (confirm tx vout n height hash) rows =
    update_utxo_confirmations now tx vout n height hash rows
execute now (delete_spent cutoff) rows = (delete_spent_utxos cutoff rows).0

unfoldable pub execute_all : List (ℕ × Statement) → List WalletUtxo → List WalletUtxo
unfolding execute
execute_all [] rows = rows
execute_all ((now, s) ∷ rest) rows = execute_all rest (execute now s rows)

same_output_comm : (a b : WalletUtxo) → same_output a b ≡ same_output b a
same_output_comm a b = ground (arith, eq_iff a.tx_id b.tx_id, eq_iff b.tx_id a.tx_id)

update_output-Unique :
    (tx : String) (vout : ℕ) (f : WalletUtxo → WalletUtxo) (rows : List WalletUtxo)
    → ((a b : WalletUtxo) → same_output (f a) b ≡ same_output a b)
    → ((a b : WalletUtxo) → same_output a (f b) ≡ same_output a b)
    → Unique same_output rows
    → Unique same_output (kept_or (update_output tx vout f rows) rows)
unfolding kept_or update_output
update_output-Unique tx vout f rows left right d =
    elim (Bool-cases (any_where (is_output tx vout) rows)) [
      | inl hit ↦ rw hit (Unique-update same_output (is_output tx vout) f rows left right d)
      | inr miss ↦ rw miss d
    ]

execute-Unique :
    (now : ℕ) (s : Statement) (rows : List WalletUtxo)
    → Unique same_output rows
    → Unique same_output (execute now s rows)
unfolding execute save_wallet_utxo mark_utxo_pending_spend mark_utxo_spent revert_utxo_pending_spend
    update_utxo_confirmations delete_spent_utxos
execute-Unique now (save u) rows d =
    Unique-upsert same_output (refreshed now u) (stamped now u) rows same_output_comm (λ a b. refl)
      d
execute-Unique now (pending tx vout spend) rows d =
    update_output-Unique tx vout _ rows (λ a b. refl) (λ a b. refl) d
execute-Unique now (mark_spent tx vout spend) rows d =
    update_output-Unique tx vout _ rows (λ a b. refl) (λ a b. refl) d
execute-Unique now (revert tx vout) rows d =
    Unique-update same_output _ _ rows (λ a b. refl) (λ a b. refl) d
execute-Unique now (confirm tx vout n height hash) rows d =
    Unique-update same_output _ _ rows (λ a b. refl) (λ a b. refl) d
execute-Unique now (delete_spent cutoff) rows d = Unique-filter same_output _ rows d

-- No sequence of statements gives two rows the same output.
pub execute_all-Unique :
    (xs : List (ℕ × Statement)) (rows : List WalletUtxo)
    → Unique same_output rows
    → Unique same_output (execute_all xs rows)
unfolding execute_all
execute_all-Unique [] rows d = d
execute_all-Unique ((now, s) ∷ rest) rows d =
    execute_all-Unique rest (execute now s rows) (execute-Unique now s rows d)

descending_total :
    (a b : WalletUtxo)
    → descending (λ u. u.amount) a b ≡ false
    → descending (λ u. u.amount) b a ≡ true
descending_total a b h = ground arith

descending_trans :
    (a b c : WalletUtxo)
    → descending (λ u. u.amount) a b ≡ true
    → descending (λ u. u.amount) b c ≡ true
    → descending (λ u. u.amount) a c ≡ true
descending_trans a b c h k = ground arith

confirmed-update :
    (p : WalletUtxo → Bool) (f : WalletUtxo → WalletUtxo) (chain : String) (rows : List WalletUtxo)
    → ((u : WalletUtxo) → (f u).status ≡ pending_spend)
    → filter_where (is_confirmed_on chain) (update_where p f rows)
      ≡ filter_where (λ u. not (p u)) (filter_where (is_confirmed_on chain) rows)
unfolding filter_where update_where
confirmed-update p f chain [] h = refl
confirmed-update p f chain (u ∷ us) h = ground (arith, confirmed-update p f chain us h, h u)

-- Reserving an output takes it, and nothing else, off the outputs that can be spent.
pub pending-spendable :
    (now : ℕ) (tx : String) (vout : ℕ) (spend chain : String) (rows : List WalletUtxo)
    {rows' : List WalletUtxo}
    → mark_utxo_pending_spend now tx vout spend rows ≡ ok rows'
    → get_spendable_utxos chain rows'
      ≡ filter_where (λ u. not (is_output tx vout u)) (get_spendable_utxos chain rows)
unfolding mark_utxo_pending_spend update_output get_spendable_utxos
pending-spendable now tx vout spend chain rows {rows'} h =
    elim (Bool-cases (any_where (is_output tx vout) rows)) [
      | inr miss ↦ absurd (let k = rw miss at h in cc)
      | inl hit ↦
          let f : WalletUtxo → WalletUtxo =
            λ u. record u { status = pending_spend; spent_tx_id = spend; updated_at = now } in
          let e : update_where (is_output tx vout) f rows ≡ rows' = let k = rw hit at h in cc in
          rw (sym e) (
            ap (order_with (descending (λ u. u.amount)))
              (confirmed-update (is_output tx vout) f chain rows (λ u. refl))
            ∙ sym (
                filter-order (descending (λ u. u.amount)) descending_total descending_trans
                  (λ u. not (is_output tx vout u)) (filter_where (is_confirmed_on chain) rows)))
    ]

sum_amounts-some :
    (rows : List WalletUtxo) {n : ℕ} → sum_amounts rows ≡ some n → sum_of (λ u. u.amount) rows ≡ n
unfolding sum_amounts
sum_amounts-some rows h = ground arith

all_sums-first : (a b c d : Option ℕ) {x y z : ℕ} → all_sums a b c d ≡ some (x, y, z) → a ≡ some x
all_sums-first (some a) (some b) (some c) (some d) h = cc
all_sums-first none b c d h = cc
all_sums-first (some a) none c d h = cc
all_sums-first (some a) (some b) none d h = cc
all_sums-first (some a) (some b) (some c) none h = cc

-- Where the balance of a chain and its balances by status can be read, the balance is the sum of
-- the outputs that can be spent there, and it is the confirmed one.
pub get_total_balance-Spendable :
    (chain : String) (rows : List WalletUtxo) {n c u p : ℕ}
    → get_total_balance chain rows ≡ some n
    → get_balance_by_status chain rows ≡ some (c, u, p)
    → (sum_of (λ u. u.amount) (get_spendable_utxos chain rows) ≡ n) × (c ≡ n)
unfolding get_total_balance get_balance_by_status sum_by get_spendable_utxos
get_total_balance-Spendable chain rows {n} {c} {u} {p} h k =
    let found = filter_where (is_confirmed_on chain) rows in
    (
      sum_of-order (λ u. u.amount) (descending (λ u. u.amount)) found ∙ sum_amounts-some found h,
      (let e = all_sums-first _ _ _ _ k in cc),
    )

-- Reserving an output and then giving it up leaves it confirmed, with as many confirmations as
-- before, whatever its status was: also where it was unconfirmed, or spent.
pub revert-Confirms :
    (now later : ℕ) (tx : String) (vout : ℕ) (spend : String) (rows : List WalletUtxo)
    {u : WalletUtxo} {rows' : List WalletUtxo}
    → get_wallet_utxo tx vout rows ≡ some u
    → mark_utxo_pending_spend now tx vout spend rows ≡ ok rows'
    → (r : WalletUtxo) × (get_wallet_utxo tx vout (revert_utxo_pending_spend later tx vout rows')
        ≡ some r)
      × (r.status ≡ confirmed)
      × (r.confirmations ≡ u.confirmations)
unfolding get_wallet_utxo mark_utxo_pending_spend update_output revert_utxo_pending_spend
revert-Confirms now later tx vout spend rows {u} {rows'} h e =
    let f : WalletUtxo → WalletUtxo =
      λ r. record r { status = pending_spend; spent_tx_id = spend; updated_at = now } in
    let g : WalletUtxo → WalletUtxo =
      λ r. record r { status = confirmed; spent_tx_id = ""; updated_at = later } in
    let same : update_where (is_output tx vout) f rows ≡ rows' =
      let k = rw (any_where-find (is_output tx vout) rows h) at e in cc in
    let marked = find-update_self (is_output tx vout) f rows (λ r. refl) h in
    let reverted =
      find-update (is_output tx vout) (λ r. is_output tx vout r && status_eq r.status pending_spend)
        g (update_where (is_output tx vout) f rows) (λ r. refl) in
    (
      g (f u),
      rw (sym same) (reverted ∙ rw (marked, find_where-true (is_output tx vout) rows h) refl),
      refl,
      refl,
    )
