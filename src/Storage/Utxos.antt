-- ===== src/Storage/Utxos.antt =====
-- internal/storage/wallet_utxos.go: the outputs of the wallet. Counts of confirmations, heights and
-- times are int64 and not negative. Amounts are below 2 ^ 63, the largest integer of the database.
pub mod Reserve
use klingdex.Prelude.{
  ℕ, ◌+◌, ◌-◌, ◌^◌, String, Bool, true, false, ◌&&◌, ◌||◌, not, Option, none, some, List, [], ◌∷◌,
  ltb, leb, ◌==◌, if◌then◌else◌, length, str_eq, Result, ok, err,
}
use klingdex.Tables.{
  update_where, filter_where, find_where, any_where, upsert, order_with, descending,
}
use klingdex.Utxos.Sort.{sum_of}

pub data UtxoStatus : Type 0 where
  unconfirmed confirmed pending_spend spent : UtxoStatus

abbrev pub status_eq : UtxoStatus → UtxoStatus → Bool
status_eq unconfirmed unconfirmed = true
status_eq confirmed confirmed = true
status_eq pending_spend pending_spend = true
status_eq spent spent = true
status_eq _ _ = false

pub record WalletUtxo : Type 0 where
  pub tx_id : String
  pub vout : ℕ
  pub amount : ℕ
  pub address : String
  pub chain : String
  pub address_type : String
  pub account : ℕ
  pub change : ℕ
  pub address_index : ℕ
  pub script_pub_key : String
  pub status : UtxoStatus
  pub block_height : ℕ
  pub block_hash : String
  pub confirmations : ℕ
  pub spent_tx_id : String
  pub spent_at : ℕ
  pub created_at : ℕ
  pub updated_at : ℕ

-- `WHERE txid = ? AND vout = ?`
abbrev pub is_output : String → ℕ → WalletUtxo → Bool
is_output tx vout u = str_eq u.tx_id tx && u.vout == vout

abbrev pub same_output : WalletUtxo → WalletUtxo → Bool
same_output a b = is_output a.tx_id a.vout b

-- The row that is inserted.
abbrev pub stamped : ℕ → WalletUtxo → WalletUtxo
stamped now u = record u {
  created_at = if u.created_at == 0 then now else u.created_at;
  updated_at = now;
}

-- What a new row overwrites in the one that is there.
abbrev pub refreshed : ℕ → WalletUtxo → WalletUtxo → WalletUtxo
refreshed now u old = record old {
  status = u.status;
  block_height = u.block_height;
  block_hash = u.block_hash;
  confirmations = u.confirmations;
  spent_tx_id = u.spent_tx_id;
  spent_at = u.spent_at;
  updated_at = now;
}

unfoldable pub save_wallet_utxo : ℕ → WalletUtxo → List WalletUtxo → List WalletUtxo
unfolding upsert
save_wallet_utxo now u rows = upsert (same_output u) (refreshed now u) (stamped now u) rows

unfoldable pub get_wallet_utxo : String → ℕ → List WalletUtxo → Option WalletUtxo
unfolding find_where
get_wallet_utxo tx vout rows = find_where (is_output tx vout) rows

abbrev pub is_confirmed_on : String → WalletUtxo → Bool
is_confirmed_on chain u = str_eq u.chain chain && status_eq u.status confirmed

unfoldable pub get_spendable_utxos : String → List WalletUtxo → List WalletUtxo
unfolding filter_where order_with
get_spendable_utxos chain rows =
    order_with (descending (λ u. u.amount)) (filter_where (is_confirmed_on chain) rows)

-- The order of the statuses as texts.
abbrev status_rank : UtxoStatus → ℕ
status_rank confirmed = 0
status_rank pending_spend = 1
status_rank spent = 2
status_rank unconfirmed = 3

unfoldable pub get_utxos_by_address : String → List WalletUtxo → List WalletUtxo
unfolding filter_where order_with
get_utxos_by_address address rows =
    order_with
      (λ a b.
        ltb (status_rank a.status) (status_rank b.status)
        || (status_eq a.status b.status && leb b.amount a.amount))
      (filter_where (λ u. str_eq u.address address) rows)

unfoldable pub get_all_utxos : String → List WalletUtxo → List WalletUtxo
unfolding filter_where order_with
get_all_utxos chain rows =
    order_with (descending (λ u. u.amount))
      (filter_where (λ u. str_eq u.chain chain && not (status_eq u.status spent)) rows)

pub data UtxoError : Type 0 where
  utxo_not_found : UtxoError

-- An update of one output, which fails where there is none.
unfoldable pub update_output :
    String → ℕ → (WalletUtxo → WalletUtxo) → List WalletUtxo → Result UtxoError (List WalletUtxo)
unfolding any_where update_where
update_output tx vout f rows =
    if any_where (is_output tx vout) rows
    then ok (update_where (is_output tx vout) f rows)
    else err utxo_not_found

unfoldable pub mark_utxo_pending_spend :
    ℕ → String → ℕ → String → List WalletUtxo → Result UtxoError (List WalletUtxo)
unfolding update_output
mark_utxo_pending_spend now tx vout spend rows =
    update_output tx vout
      (λ u. record u { status = pending_spend; spent_tx_id = spend; updated_at = now }) rows

unfoldable pub mark_utxo_spent :
    ℕ → String → ℕ → String → List WalletUtxo → Result UtxoError (List WalletUtxo)
unfolding update_output
mark_utxo_spent now tx vout spend rows =
    update_output tx vout
      (λ u. record u { status = spent; spent_tx_id = spend; spent_at = now; updated_at = now }) rows

unfoldable pub revert_utxo_pending_spend : ℕ → String → ℕ → List WalletUtxo → List WalletUtxo
unfolding update_where
revert_utxo_pending_spend now tx vout rows =
    update_where (λ u. is_output tx vout u && status_eq u.status pending_spend)
      (λ u. record u { status = confirmed; spent_tx_id = ""; updated_at = now }) rows

unfoldable pub update_utxo_confirmations :
    ℕ → String → ℕ → ℕ → ℕ → String → List WalletUtxo → List WalletUtxo
unfolding update_where
update_utxo_confirmations now tx vout count height hash rows =
    update_where (is_output tx vout)
      (λ u. record u {
        confirmations = count;
        block_height = if ltb 0 count then height else u.block_height;
        block_hash = if ltb 0 count then hash else u.block_hash;
        status = if ltb 0 count && status_eq u.status unconfirmed then confirmed else u.status;
        updated_at = now;
      })
      rows

abbrev pub is_spent_before : ℕ → WalletUtxo → Bool
is_spent_before cutoff u = status_eq u.status spent && ltb u.spent_at cutoff

-- The rows that stay, and how many were deleted.
unfoldable pub delete_spent_utxos : ℕ → List WalletUtxo → List WalletUtxo × ℕ
unfolding filter_where
delete_spent_utxos cutoff rows = (
  filter_where (λ u. not (is_spent_before cutoff u)) rows,
  length (filter_where (is_spent_before cutoff) rows),
)

-- `SUM(amount)`; the database fails where it is no int64.
unfoldable pub sum_amounts : List WalletUtxo → Option ℕ
sum_amounts rows = let n = sum_of (λ u. u.amount) rows in if ltb n (2 ^ 63) then some n else none

unfoldable pub get_total_balance : String → List WalletUtxo → Option ℕ
unfolding sum_amounts filter_where
get_total_balance chain rows = sum_amounts (filter_where (is_confirmed_on chain) rows)

unfoldable pub sum_by : String → UtxoStatus → List WalletUtxo → Option ℕ
unfolding sum_amounts filter_where
sum_by chain s rows =
    sum_amounts (filter_where (λ u. str_eq u.chain chain && status_eq u.status s) rows)

abbrev all_sums : Option ℕ → Option ℕ → Option ℕ → Option ℕ → Option (ℕ × ℕ × ℕ)
all_sums (some c) (some u) (some p) (some s) = some (c, u, p)
all_sums _ _ _ _ = none

-- The confirmed, the unconfirmed and the pending balance; a status with no row has none. Spent
-- outputs are summed too, and left out of the result.
unfoldable pub get_balance_by_status : String → List WalletUtxo → Option (ℕ × ℕ × ℕ)
unfolding sum_by
get_balance_by_status chain rows =
    all_sums (sum_by chain confirmed rows) (sum_by chain unconfirmed rows)
      (sum_by chain pending_spend rows) (sum_by chain spent rows)
