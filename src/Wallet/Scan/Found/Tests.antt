-- ===== src/Wallet/Scan/Found/Tests.antt =====
-- A wallet of which the first two addresses are used.
use klingdex.Prelude.{
  ℕ, ◌+◌, ◌≤◌, ◌<◌, ◌⊎◌, String, ◌≡◌, ◌≢◌, refl, Option, some, none, [], arith, ltb, if◌then◌else◌,
  true, false, str_eq,
}
use klingdex.Wallet.Scan.{ScanBackend, ScanState, scan_addresses, has_activity}
use klingdex.Wallet.Scan.Found.{is_active, scan_addresses-Finds}

abbrev derive : ℕ → Option String
derive i = some (if ltb i 2 then "used" else "free")

abbrev backend : ScanBackend
backend = record {
  address_utxos = λ a. some [];
  tx_count = λ a. some (if str_eq a "used" then 1 else 0);
}

derives : (i : ℕ) → derive i ≢ none
derives i h = absurd cc

lt_false : (i : ℕ) → 2 ≤ i → ltb i 2 ≡ false
lt_false i h = ground arith

later_inactive : (i : ℕ) → 2 ≤ i → is_active backend "BTC" "bc" 0 1 derive i ≡ false
unfolding is_active has_activity
later_inactive i h = rw (lt_false i h) refl

scan_addresses-Finds_example :
    (s : ScanState) × (scan_addresses backend "BTC" "bc" 0 1 derive 20 22 [] [] ≡ some (s, none))
    × (((s.last_used ≡ 0) × ((i : ℕ) → i < 20 → is_active backend "BTC" "bc" 0 1 derive i ≡ false))
        ⊎ ((is_active backend "BTC" "bc" 0 1 derive s.last_used ≡ true)
            × ((i : ℕ)
                → s.last_used < i
                → i ≤ s.last_used + 20
                → is_active backend "BTC" "bc" 0 1 derive i ≡ false)))
scan_addresses-Finds_example =
    scan_addresses-Finds backend "BTC" "bc" 0 1 derive 20 2 (omega arith) (omega arith) derives
      later_inactive 22 [] [] (omega arith)
