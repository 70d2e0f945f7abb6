-- ===== src/Storage/Addresses.antt =====
-- internal/storage/wallet_utxos.go: the addresses of the wallet, and how far each chain is synced.
use klingdex.Prelude.{
  ℕ, ◌+◌, ◌%◌, ◌^◌, String, Bool, ◌&&◌, ◌||◌, Option, none, some, List, [], ◌∷◌, ltb, leb, ◌==◌,
  if◌then◌else◌, length, str_eq,
}
use klingdex.Tables.{filter_where, find_where, upsert, order_with}

pub record WalletAddress : Type 0 where
  pub address : String
  pub chain : String
  pub account : ℕ
  pub change : ℕ
  pub address_index : ℕ
  pub address_type : String
  pub tx_count : ℕ
  pub total_received : ℕ
  pub total_sent : ℕ
  pub created_at : ℕ
  pub first_seen_at : ℕ
  pub last_seen_at : ℕ

abbrev pub has_address : String → WalletAddress → Bool
has_address a r = str_eq r.address a

-- On a conflict the time of the first use is not among the columns that are set.
unfoldable pub save_wallet_address : ℕ → WalletAddress → List WalletAddress → List WalletAddress
unfolding upsert
save_wallet_address now a rows =
    upsert (has_address a.address)
      (λ old. record old {
        tx_count = a.tx_count;
        total_received = a.total_received;
        total_sent = a.total_sent;
        last_seen_at = a.last_seen_at;
      })
      (record a { created_at = if a.created_at == 0 then now else a.created_at }) rows

unfoldable pub get_wallet_address : String → List WalletAddress → Option WalletAddress
unfolding find_where
get_wallet_address a rows = find_where (has_address a) rows

abbrev pub is_branch : String → ℕ → ℕ → WalletAddress → Bool
is_branch chain account change r =
    str_eq r.chain chain && r.account == account && r.change == change

unfoldable pub get_wallet_address_by_path :
    String → ℕ → ℕ → ℕ → List WalletAddress → Option WalletAddress
unfolding find_where
get_wallet_address_by_path chain account change index rows =
    find_where (λ r. is_branch chain account change r && r.address_index == index) rows

-- `ORDER BY account, change, address_index`
abbrev path_before : WalletAddress → WalletAddress → Bool
path_before a b =
    ltb a.account b.account
    || (a.account == b.account
        && (ltb a.change b.change || (a.change == b.change && leb a.address_index b.address_index)))

unfoldable pub list_wallet_addresses : String → List WalletAddress → List WalletAddress
unfolding filter_where order_with
list_wallet_addresses chain rows =
    order_with path_before (filter_where (λ r. str_eq r.chain chain) rows)

-- `MAX(address_index)`, and 0 where there is no row.
unfoldable pub max_index : List WalletAddress → ℕ
max_index [] = 0
max_index (r ∷ rs) = let m = max_index rs in if leb r.address_index m then m else r.address_index

unfoldable pub get_max_address_index : String → ℕ → ℕ → List WalletAddress → ℕ
unfolding filter_where max_index
get_max_address_index chain account change rows =
    max_index (filter_where (is_branch chain account change) rows)

unfoldable pub get_next_address_index : String → ℕ → ℕ → List WalletAddress → ℕ
unfolding filter_where get_max_address_index
get_next_address_index chain account change rows =
    if length (filter_where (is_branch chain account change) rows) == 0
    then 0
    else (get_max_address_index chain account change rows + 1) % 2 ^ 32

pub record WalletSyncState : Type 0 where
  pub chain : String
  pub last_external_index : ℕ
  pub last_change_index : ℕ
  pub gap_limit : ℕ
  pub last_sync_at : ℕ
  pub last_block_height : ℕ
  pub sync_status : String

-- All columns but the key are set, so the row is replaced.
unfoldable pub save_wallet_sync_state :
    WalletSyncState → List WalletSyncState → List WalletSyncState
unfolding upsert
save_wallet_sync_state s rows =
    upsert (λ r. str_eq r.chain s.chain) (λ old. record s { chain = old.chain }) s rows

state_or : String → Option WalletSyncState → WalletSyncState
state_or chain (some s) = s
state_or chain none = record {
  chain = chain;
  last_external_index = 0;
  last_change_index = 0;
  gap_limit = 20;
  last_sync_at = 0;
  last_block_height = 0;
  sync_status = "pending";
}

unfoldable pub get_wallet_sync_state : String → List WalletSyncState → WalletSyncState
unfolding find_where state_or
get_wallet_sync_state chain rows = state_or chain (find_where (λ r. str_eq r.chain chain) rows)
