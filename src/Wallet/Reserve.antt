-- ===== src/Wallet/Reserve.antt =====
-- internal/wallet/utxo_sync.go: the outputs that the wallet offers for a transaction, and what it
-- records of those that a transaction spends.
mod Tests
use klingdex.Prelude.{
  ℕ, ◌+◌, String, Bool, true, false, ◌&&◌, not, ◌≡◌, refl, sym, ap, ◌∙◌, Option, none, some, List,
  [], ◌∷◌, arith, ltb, leb, ◌==◌, if◌then◌else◌, Result, ok, err, Result-cases, inl, inr, map,
  Bool-cases,
}
use klingdex.Tables.{filter_where, any_where}
use klingdex.Wallet.Multi.{AddressUtxo}
use klingdex.Storage.Utxos.{
  WalletUtxo, UtxoError, pending_spend, status_eq, is_output, get_spendable_utxos, get_all_utxos,
  mark_utxo_pending_spend, mark_utxo_spent, revert_utxo_pending_spend,
}
use klingdex.Storage.Utxos.Reserve.{pending-spendable}

unfoldable pub to_address_utxo : WalletUtxo → AddressUtxo
to_address_utxo u = record {
  tx_id = u.tx_id;
  vout = u.vout;
  amount = u.amount;
  address = u.address;
  account = u.account;
  change = u.change;
  address_index = u.address_index;
  address_type = u.address_type;
}

-- The service's `GetSpendableUTXOs`.
unfoldable pub list_spendable : String → ℕ → List WalletUtxo → List AddressUtxo
unfolding filter_where to_address_utxo
list_spendable symbol min_confirmations rows = map to_address_utxo (
    filter_where (λ u. not (ltb 0 min_confirmations && ltb u.confirmations min_confirmations))
      (get_spendable_utxos symbol rows))

-- The service's `GetAllUTXOs`.
unfoldable pub list_all : String → List WalletUtxo → List AddressUtxo
unfolding filter_where to_address_utxo
list_all symbol rows =
    map to_address_utxo
      (filter_where (λ u. not (status_eq u.status pending_spend)) (get_all_utxos symbol rows))

-- The outputs before one that is not there stay marked.
unfoldable pub mark_utxos_spending :
    ℕ → List AddressUtxo → String → List WalletUtxo → List WalletUtxo × Option UtxoError
mark_utxos_spending now [] spend rows = (rows, none)
mark_utxos_spending now (u ∷ us) spend rows =
    elim (mark_utxo_pending_spend now u.tx_id u.vout spend rows) [
      | err e ↦ (rows, some e)
      | ok rows' ↦ mark_utxos_spending now us spend rows'
    ]

kept : List WalletUtxo → Result UtxoError (List WalletUtxo) → List WalletUtxo
kept old (ok rows) = rows
kept old (err e) = old

-- An error is only logged.
unfoldable pub confirm_utxos_spent :
    ℕ → List AddressUtxo → String → List WalletUtxo → List WalletUtxo
unfolding kept
confirm_utxos_spent now [] spend rows = rows
confirm_utxos_spent now (u ∷ us) spend rows =
    confirm_utxos_spent now us spend (kept rows (mark_utxo_spent now u.tx_id u.vout spend rows))

unfoldable pub revert_pending_spend : ℕ → List AddressUtxo → List WalletUtxo → List WalletUtxo
revert_pending_spend now [] rows = rows
revert_pending_spend now (u ∷ us) rows =
    revert_pending_spend now us (revert_utxo_pending_spend now u.tx_id u.vout rows)

abbrev pub is_among : List AddressUtxo → WalletUtxo → Bool
is_among us r = any_where (λ u. is_output u.tx_id u.vout r) us

filter-filter :
    (p q r : WalletUtxo → Bool) (rows : List WalletUtxo)
    → ((u : WalletUtxo) → r u ≡ (q u && p u))
    → filter_where p (filter_where q rows) ≡ filter_where r rows
unfolding filter_where
filter-filter p q r [] h = refl
filter-filter p q r (u ∷ us) h = ground (arith, h u, filter-filter p q r us h)

filter_all : (rows : List WalletUtxo) → rows ≡ filter_where (λ u. true) rows
unfolding filter_where
filter_all [] = refl
filter_all (u ∷ us) = ap (λ t. u ∷ t) (filter_all us)

-- Once all outputs of a transaction are marked, the outputs that can be spent on a chain are those
-- from before but for the transaction's, in the same order.
pub mark_utxos_spending-Reserves :
    (now : ℕ) (us : List AddressUtxo) (spend chain : String) (rows : List WalletUtxo)
    → (mark_utxos_spending now us spend rows).1 ≡ none
    → get_spendable_utxos chain (mark_utxos_spending now us spend rows).0
      ≡ filter_where (λ r. not (is_among us r)) (get_spendable_utxos chain rows)
unfolding mark_utxos_spending any_where
mark_utxos_spending-Reserves now [] spend chain rows h = filter_all (get_spendable_utxos chain rows)
mark_utxos_spending-Reserves now (u ∷ us) spend chain rows h =
    elim (Result-cases (mark_utxo_pending_spend now u.tx_id u.vout spend rows)) [
      | inr (e, f) ↦ absurd (let k = rw (mark_utxos_spending, f) at h in cc)
      | inl (rows', f) ↦
          let k = rw (mark_utxos_spending, f) at h in
          rw (mark_utxos_spending, f)
            (mark_utxos_spending-Reserves now us spend chain rows' k
              ∙ rw (pending-spendable now u.tx_id u.vout spend chain rows f) (
                  filter-filter (λ r. not (is_among us r)) (λ r. not (is_output u.tx_id u.vout r))
                    (λ r. not (is_among (u ∷ us) r)) (get_spendable_utxos chain rows)
                    (λ r. ground arith)))
    ]
