-- ===== src/Wallet/Scan.antt =====
-- internal/wallet/utxo_sync.go: the scan of the wallet's addresses up to the gap limit. The
-- wallet's keys and the backend are functions; the cancellation of the context is left out.
pub mod Found
pub mod Reopen
use Prim.Native.String.{[] as no_char, ◌∷◌ as push_char, ◌++◌ as ◌<>◌}
use text.Mathlib.Text.{starts_with}
use klingdex.Prelude.{
  ℕ, zero, suc, ◌+◌, ◌%◌, ◌^◌, String, Bool, true, false, ◌||◌, not, Option, none, some, List, [],
  ◌∷◌, ltb, leb, ◌==◌, if◌then◌else◌, length, is_empty, Result, ok, err,
}
use klingdex.Utxos.Sort.{sum_of}
use klingdex.Tables.{upsert}
use klingdex.Storage.Utxos.{WalletUtxo, UtxoStatus, unconfirmed, confirmed, save_wallet_utxo}
use klingdex.Storage.Addresses.{
  WalletAddress, save_wallet_address, WalletSyncState, get_wallet_sync_state,
  save_wallet_sync_state,
}

-- An unspent output as a backend lists it, with what the scan reads of it.
pub record BackendUtxo : Type 0 where
  pub tx_id : String
  pub vout : ℕ
  pub amount : ℕ
  pub confirmations : ℕ

-- `none` is an error.
pub record ScanBackend : Type 0 where
  pub address_utxos : String → Option (List BackendUtxo)
  -- The `TxCount` of an address, where the backend tells it.
  pub tx_count : String → Option ℕ

-- The bytes of an ASCII text.
text_length : String → ℕ
text_length no_char = 0
text_length (push_char c s) = suc (text_length s)

unfoldable pub detect_address_type : String → String → String
unfolding text_length
detect_address_type hrp a =
    if ltb (text_length a) 4
    then "p2pkh"
    else (if starts_with a (hrp <> "1p")
        then "p2tr"
        else (if starts_with a (hrp <> "1q")
            then "p2wpkh"
            else (if starts_with a "tb1p" || starts_with a "bc1p"
                then "p2tr"
                else (if starts_with a "tb1q" || starts_with a "bc1q" then "p2wpkh" else "p2pkh"))))

pub data ScanError : Type 0 where
  derive_failed : ScanError

-- The variables of the loop, and the two tables.
pub record ScanState : Type 0 where
  pub index : ℕ
  pub empty : ℕ
  pub last_used : ℕ
  pub addresses : List WalletAddress
  pub outputs : List WalletUtxo

abbrev no_activity : Option ℕ → Bool
no_activity none = true
no_activity (some n) = n == 0

-- The chain, the prefix of its addresses, external (0) or change (1), and the clock.
module _ (b : ScanBackend) (symbol hrp : String) (change now : ℕ) where
  -- Is an address used, now or in the past? An address that cannot be read counts as unused.
  unfoldable pub has_activity : String → Bool
  has_activity a = elim (b.address_utxos a) [
    | none ↦ false
    | some [] ↦ not (no_activity (b.tx_count a))
    | some (u ∷ us) ↦ true
  ]

  unfoldable pub scanned_address : String → ℕ → WalletAddress
  unfolding detect_address_type
  scanned_address a index = record {
    address = a;
    chain = symbol;
    account = 0;
    change = change;
    address_index = index;
    address_type = detect_address_type hrp a;
    tx_count = 0;
    total_received = 0;
    total_sent = 0;
    created_at = now;
    first_seen_at = 0;
    last_seen_at = 0;
  }

  unfoldable pub scanned_utxo : String → ℕ → BackendUtxo → WalletUtxo
  unfolding detect_address_type
  scanned_utxo a index u = record {
    tx_id = u.tx_id;
    vout = u.vout;
    amount = u.amount;
    address = a;
    chain = symbol;
    address_type = detect_address_type hrp a;
    account = 0;
    change = change;
    address_index = index;
    script_pub_key = "";
    status = if u.confirmations == 0 then unconfirmed else confirmed;
    block_height = 0;
    block_hash = "";
    confirmations = u.confirmations;
    spent_tx_id = "";
    spent_at = 0;
    created_at = 0;
    updated_at = 0;
  }

  unfoldable pub save_all : String → ℕ → List BackendUtxo → List WalletUtxo → List WalletUtxo
  unfolding scanned_utxo
  save_all a index [] rows = rows
  save_all a index (u ∷ us) rows =
      save_all a index us (save_wallet_utxo now (scanned_utxo a index u) rows)

  abbrev listed : Option (List BackendUtxo) → List BackendUtxo
  listed none = []
  listed (some us) = us

  -- The statistics of a used address; the sum is uint64.
  abbrev used_address : String → ℕ → WalletAddress
  used_address a index =
      let us = listed (b.address_utxos a) in
      record (scanned_address a index) {
        tx_count = length us;
        total_received = sum_of (λ u. u.amount) us % 2 ^ 64;
        first_seen_at = now;
        last_seen_at = now;
      }

  -- One round of the loop, on the address at its index.
  unfoldable pub scan_address : String → ScanState → ScanState
  unfolding has_activity scanned_address save_all
  scan_address a s =
      let saved = save_wallet_address now (scanned_address a s.index) s.addresses in
      let next = (s.index + 1) % 2 ^ 32 in
      if has_activity a
      then record s {
        index = next;
        empty = 0;
        last_used = s.index;
        addresses = save_wallet_address now (used_address a s.index) saved;
        outputs = save_all a s.index (listed (b.address_utxos a)) s.outputs;
      }
      else record s { index = next; empty = (s.empty + 1) % 2 ^ 32; addresses = saved }

  -- `derive` is `DeriveAddressWithChange`. `none` means that the fuel ran out.
  unfoldable pub scan_loop :
      (ℕ → Option String) → ℕ → ℕ → ScanState → Option (ScanState × Option ScanError)
  scan_loop derive gap zero s = none
  scan_loop derive gap (suc fuel) s = elim (derive s.index) [
    | none ↦ some (s, some derive_failed)
    | some a ↦
        let s' = scan_address a s in
        elim (leb gap s'.empty) [ true ↦ some (s', none) | false ↦ scan_loop derive gap fuel s' ]
  ]

  -- The index at which the last scan ended is not used: every scan starts at 0.
  unfoldable pub scan_addresses :
      (ℕ → Option String)
      → ℕ
      → ℕ
      → List WalletAddress
      → List WalletUtxo
      → Option (ScanState × Option ScanError)
  unfolding scan_loop
  scan_addresses derive gap fuel addresses outputs =
      scan_loop derive gap fuel
        (record { index = 0; empty = 0; last_used = 0; addresses = addresses; outputs = outputs })

-- The two scans of `SyncChain`, and what it records of them; `height` is 0 where the backend fails.
unfoldable pub sync_chain :
    ScanBackend
    → String
    → String
    → ℕ
    → (ℕ → ℕ → Option String)
    → ℕ
    → ℕ
    → ℕ
    → List WalletAddress
    → List WalletUtxo
    → List WalletSyncState
    → Option (List WalletAddress × List WalletUtxo × Result ScanError (List WalletSyncState))
unfolding scan_addresses
sync_chain b symbol hrp now derive gap fuel height addresses outputs states =
    let external = scan_addresses b symbol hrp 0 now (derive 0) gap fuel addresses outputs in
    elim external [
      | none ↦ none
      | some (s, some e) ↦ some (s.addresses, s.outputs, err e)
      | some (s, none) ↦
          let change =
            scan_addresses b symbol hrp 1 now (derive 1) gap fuel s.addresses s.outputs in
          elim change [
            | none ↦ none
            | some (u, some e) ↦ some (u.addresses, u.outputs, err e)
            | some (u, none) ↦ some (
              u.addresses,
              u.outputs,
              ok (
                  save_wallet_sync_state
                    (record (get_wallet_sync_state symbol states) {
                      last_external_index = s.last_used;
                      last_change_index = u.last_used;
                      last_sync_at = now;
                      last_block_height = height;
                      sync_status = "synced";
                      gap_limit = gap;
                    })
                    states),
            )
          ]
    ]

next_address : (ℕ → Option String) → ℕ → Option (String × ℕ)
next_address derive index = elim (derive index) [ none ↦ none | some a ↦ some (a, index) ]

unfoldable pub get_next_change_address :
    (ℕ → ℕ → Option String) → String → List WalletSyncState → Option (String × ℕ)
unfolding next_address
get_next_change_address derive symbol states =
    next_address (derive 1) (((get_wallet_sync_state symbol states).last_change_index + 1) % 2 ^ 32)

unfoldable pub get_next_receive_address :
    (ℕ → ℕ → Option String) → String → List WalletSyncState → Option (String × ℕ)
unfolding next_address
get_next_receive_address derive symbol states =
    next_address (derive 0)
      (((get_wallet_sync_state symbol states).last_external_index + 1) % 2 ^ 32)
