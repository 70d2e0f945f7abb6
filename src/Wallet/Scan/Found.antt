-- ===== src/Wallet/Scan/Found.antt =====
-- That a scan ends, and what it has found by then.
mod Tests
use klingdex.Prelude.{
  ℕ, zero, suc, ◌+◌, ◌-◌, ◌%◌, ◌^◌, ◌≤◌, ◌<◌, ◌≡◌, ◌≢◌, refl, sym, ◌∙◌, ◌⊎◌, inl, inr, String, Bool,
  true, false, Option, none, some, List, arith, leb, ◌==◌, ==_iff, leb→le, if◌then◌else◌,
  Bool-cases, Option-cases,
}
use klingdex.Storage.Addresses.{WalletAddress}
use klingdex.Storage.Utxos.{WalletUtxo}
use klingdex.Wallet.Scan.{
  ScanBackend, ScanState, ScanError, has_activity, scan_address, scan_loop, scan_addresses,
}

module _ (b : ScanBackend) (symbol hrp : String) (change now : ℕ) (derive : ℕ → Option String) where
  -- Does the address at an index have activity?
  unfoldable pub is_active : ℕ → Bool
  is_active i = elim (derive i) [ none ↦ false | some a ↦ has_activity b symbol hrp change now a ]

  -- At an index, after a run of inactive addresses, with the last active one before it.
  record IsScan (index empty last : ℕ) : Type 0 where
    quiet : (i : ℕ) → index ≤ i + empty → i < index → is_active i ≡ false
    ended : ((last ≡ 0) × (empty ≡ index)) ⊎ ((is_active last ≡ true) × (index ≡ last + 1 + empty))

  IsScan-hit :
      (index empty last : ℕ)
      → IsScan index empty last
      → is_active index ≡ true
      → IsScan (index + 1) 0 index
  IsScan-hit index empty last v hit = record {
    quiet = λ i low high. absurd (omega arith);
    ended = inr (hit, omega arith);
  }

  IsScan-miss :
      (index empty last : ℕ)
      → IsScan index empty last
      → is_active index ≡ false
      → IsScan (index + 1) (empty + 1) last
  IsScan-miss index empty last v miss = record {
    quiet = λ i low high. elim (Bool-cases (i == index)) [
      | inl same ↦ rw ((==_iff i index).0 same) miss
      | inr other ↦ v.quiet i (omega arith) (ground arith)
    ];
    ended = elim v.ended [ inl (z, e) ↦ inl (z, omega arith) | inr (a, e) ↦ inr (a, omega arith) ];
  }

  scan_address_hit :
      (a : String) (s : ScanState)
      → has_activity b symbol hrp change now a ≡ true
      → let s' = scan_address b symbol hrp change now a s in
        (s'.index ≡ (s.index + 1) % 2 ^ 32) × (s'.empty ≡ 0) × (s'.last_used ≡ s.index)
  unfolding scan_address
  scan_address_hit a s hit = rw (scan_address, hit) (refl, refl, refl)

  scan_address_miss :
      (a : String) (s : ScanState)
      → has_activity b symbol hrp change now a ≡ false
      → let s' = scan_address b symbol hrp change now a s in
        (s'.index ≡ (s.index + 1) % 2 ^ 32)
        × (s'.empty ≡ (s.empty + 1) % 2 ^ 32)
        × (s'.last_used ≡ s.last_used)
  unfolding scan_address
  scan_address_miss a s miss = rw (scan_address, miss) (refl, refl, refl)

  module _ (gap n : ℕ) (small : n + gap + 1 < 2 ^ 32) (positive : 0 < gap)
      (derives : (i : ℕ) → derive i ≢ none) (inactive : (i : ℕ) → n ≤ i → is_active i ≡ false) where
    -- Where the loop ends: after `gap` inactive addresses.
    abbrev Ends : Option (ScanState × Option ScanError) → Type 0
    Ends r =
        (s : ScanState) × (r ≡ some (s, none))
        × IsScan s.index s.empty s.last_used
        × (gap ≤ s.empty)

    abbrev rounds : ℕ → ℕ → ℕ
    rounds index empty = n - index + (if leb n index then gap - empty else gap)

    rounds_hit :
        (index empty : ℕ) → index < n → empty < gap → rounds (index + 1) 0 < rounds index empty
    rounds_hit index empty h k = ground arith

    rounds_miss :
        (index empty : ℕ) → empty < gap → rounds (index + 1) (empty + 1) < rounds index empty
    rounds_miss index empty k = ground arith

    loop-Ends :
        (fuel : ℕ) (s : ScanState)
        → IsScan s.index s.empty s.last_used
        → s.index ≤ n + s.empty
        → s.empty < gap
        → rounds s.index s.empty ≤ fuel
        → Ends (scan_loop b symbol hrp change now derive gap fuel s)
    unfolding scan_loop is_active
    loop-Ends zero s v bound below enough = absurd (ground arith)
    loop-Ends (suc fuel) s v bound below enough = elim (Option-cases (derive s.index)) [
      | inl missing ↦ absurd (derives s.index missing)
      | inr (a, e) ↦ elim (Bool-cases (has_activity b symbol hrp change now a)) [
        | inl hit ↦
            let s' = scan_address b symbol hrp change now a s in
            let (ei, ee, el) = scan_address_hit a s hit in
            let active : is_active s.index ≡ true = rw (is_active, e) hit in
            let early : s.index < n = elim (Bool-cases (leb n s.index)) [
              | inl late ↦ absurd (let w = inactive s.index (ground arith) in cc)
              | inr no' ↦ ground arith
            ] in
            let fi : s'.index ≡ s.index + 1 = omega arith in
            let go : leb gap s'.empty ≡ false = ground arith in
            rw (scan_loop, e, go)
              (loop-Ends fuel s' (rw (fi, ee, el) (IsScan-hit s.index s.empty s.last_used v active))
                (omega arith) (omega arith)
                (rw (fi, ee) (omega (arith, rounds_hit s.index s.empty early below))))
        | inr miss ↦
            let s' = scan_address b symbol hrp change now a s in
            let (ei, ee, el) = scan_address_miss a s miss in
            let quiet : is_active s.index ≡ false = rw (is_active, e) miss in
            let fi : s'.index ≡ s.index + 1 = omega arith in
            let fe : s'.empty ≡ s.empty + 1 = omega arith in
            let w : IsScan s'.index s'.empty s'.last_used =
              rw (fi, fe, el) (IsScan-miss s.index s.empty s.last_used v quiet) in
            elim (Bool-cases (leb gap s'.empty)) [
              | inl stop ↦ (s', rw (scan_loop, e, stop) refl, w, leb→le gap s'.empty stop)
              | inr go ↦
                  rw (scan_loop, e, go)
                    (loop-Ends fuel s' w (omega arith) (ground arith)
                      (rw (fi, fe) (omega (arith, rounds_miss s.index s.empty below))))
            ]
      ]
    ]

    -- If every address can be derived and none has activity from the index `n` on, a scan with a
    -- positive gap limit ends without an error. Either no address before the gap limit has
    -- activity, and the last used index is 0, or the last used index has activity and the `gap`
    -- indices after it have none.
    pub scan_addresses-Finds :
        (fuel : ℕ) (addresses : List WalletAddress) (outputs : List WalletUtxo)
        → n + gap ≤ fuel
        → (s : ScanState) × (scan_addresses b symbol hrp change now derive gap fuel addresses
              outputs
            ≡ some (s, none))
          × (((s.last_used ≡ 0) × ((i : ℕ) → i < gap → is_active i ≡ false))
              ⊎ ((is_active s.last_used ≡ true)
                  × ((i : ℕ) → s.last_used < i → i ≤ s.last_used + gap → is_active i ≡ false)))
    unfolding scan_addresses
    scan_addresses-Finds fuel addresses outputs enough =
        let start : ScanState = record {
          index = 0;
          empty = 0;
          last_used = 0;
          addresses = addresses;
          outputs = outputs;
        } in
        let v : IsScan 0 0 0 = record {
          quiet = λ i low high. absurd (omega arith);
          ended = inl (refl, refl);
        } in
        let (s, e, w, full) = loop-Ends fuel start v (omega arith) positive (ground arith) in
        (
          s,
          e,
          elim w.ended [
            | inl (z, f) ↦ inl (z, λ i low. w.quiet i (omega arith) (omega arith))
            | inr (a, f) ↦ inr (a, λ i low high. w.quiet i (omega arith) (omega arith))
          ],
        )
