-- ===== src/Storage/Secrets.antt =====
-- internal/storage/secrets.go: the secrets of the HTLC swaps. Times are in seconds. `none` is NULL,
-- which is read as the empty text or as no time.
pub mod WriteOnce
use klingdex.Prelude.{
  ℕ, String, Bool, true, false, ◌&&◌, ◌||◌, not, Option, none, some, List, [], ◌∷◌, ◌++◌,
  if◌then◌else◌, str_eq, map, Result, ok, err,
}
use klingdex.Tables.{update_where, filter_where, find_where, any_where, order_with, ascending}

pub data SecretCreator : Type 0 where
  us them : SecretCreator

pub record Secret : Type 0 where
  pub id : String
  pub trade_id : String
  pub secret_hash : String
  pub secret : Option String
  pub created_by : SecretCreator
  pub remote_offer_wallet_addr : String
  pub remote_request_wallet_addr : String
  pub created_at : ℕ
  pub revealed_at : Option ℕ

pub data SecretError : Type 0 where
  secret_not_found secret_exists : SecretError

abbrev pub has_id : String → Secret → Bool
has_id i s = str_eq s.id i

abbrev pub has_hash : String → Secret → Bool
has_hash h s = str_eq s.secret_hash h

abbrev of_trade : String → Secret → Bool
of_trade t s = str_eq s.trade_id t

-- The primary key, and the unique pair of trade and hash.
abbrev pub conflicts : Secret → Secret → Bool
conflicts new old = has_id new.id old || of_trade new.trade_id old && has_hash new.secret_hash old

-- An empty text is stored as NULL.
abbrev pub non_empty : Option String → Option String
non_empty none = none
non_empty (some s) = if str_eq s "" then none else some s

unfoldable pub create_secret : Secret → List Secret → Result SecretError (List Secret)
unfolding any_where
create_secret s rows =
    if any_where (conflicts s) rows
    then err secret_exists
    else ok (rows ++ (record s { secret = non_empty s.secret } ∷ []))

unfoldable pub get_secret : String → List Secret → Option Secret
unfolding find_where
get_secret i rows = find_where (has_id i) rows

unfoldable pub get_secret_by_hash : String → List Secret → Option Secret
unfolding find_where
get_secret_by_hash h rows = find_where (has_hash h) rows

unfoldable pub get_secret_by_trade_id : String → List Secret → Option Secret
unfolding find_where
get_secret_by_trade_id t rows = find_where (of_trade t) rows

abbrev pub is_known : Option String → Bool
is_known none = false
is_known (some s) = true

-- The update of both reveals, on the rows of a test whose secret is NULL. It fails only where the
-- test finds no row.
unfoldable pub reveal_where :
    (Secret → Bool) → ℕ → String → List Secret → Result SecretError (List Secret)
unfolding update_where any_where
reveal_where found now preimage rows =
    if any_where found rows
    then ok (
        update_where (λ s. found s && not (is_known s.secret))
          (λ s. record s { secret = some preimage; revealed_at = some now }) rows)
    else err secret_not_found

unfoldable pub reveal_secret : ℕ → String → String → List Secret → Result SecretError (List Secret)
unfolding reveal_where
reveal_secret now i preimage rows = reveal_where (has_id i) now preimage rows

unfoldable pub reveal_secret_by_hash :
    ℕ → String → String → List Secret → Result SecretError (List Secret)
unfolding reveal_where
reveal_secret_by_hash now h preimage rows = reveal_where (has_hash h) now preimage rows

-- The columns that the two lists read.
abbrev without_addresses : Secret → Secret
without_addresses s = record s { remote_offer_wallet_addr = ""; remote_request_wallet_addr = "" }

unfoldable pub list_secrets_by_trade : String → List Secret → List Secret
unfolding filter_where order_with
list_secrets_by_trade t rows =
    map without_addresses
      (order_with (ascending (λ s. s.created_at)) (filter_where (of_trade t) rows))

abbrev is_ours : SecretCreator → Bool
is_ours us = true
is_ours them = false

abbrev is_unrevealed : Option ℕ → Bool
is_unrevealed none = true
is_unrevealed (some t) = false

unfoldable pub get_unrevealed_secrets : List Secret → List Secret
unfolding filter_where order_with
get_unrevealed_secrets rows = map without_addresses (
    order_with (ascending (λ s. s.created_at)) (
      filter_where (λ s. is_ours s.created_by && (is_known s.secret && is_unrevealed s.revealed_at))
        rows))

abbrev preimage_of : Option Secret → Option String
preimage_of none = none
preimage_of (some s) = s.secret

unfoldable pub has_secret_preimage : String → List Secret → Bool
unfolding get_secret_by_hash
has_secret_preimage h rows = is_known (non_empty (preimage_of (get_secret_by_hash h rows)))

unfoldable pub delete_secret : String → List Secret → Result SecretError (List Secret)
unfolding any_where filter_where
delete_secret i rows =
    if any_where (has_id i) rows
    then ok (filter_where (λ s. not (has_id i s)) rows)
    else err secret_not_found

unfoldable pub delete_secrets_by_trade_id : String → List Secret → List Secret
unfolding filter_where
delete_secrets_by_trade_id t rows = filter_where (λ s. not (of_trade t s)) rows
