-- ===== src/Swap/Timelocks.antt =====
-- internal/swap/script.go: the relative timelocks in blocks that the scripts carry.
mod Tests
use klingdex.Prelude.{
  ℕ, ◌+◌, ◌-◌, ◌*◌, ◌/◌, ◌≤◌, ◌<◌, String, Bool, true, false, ◌≡◌, refl, ◌↔◌, inl, inr, Result, ok,
  err, arith, ltb, leb, if◌then◌else◌, str_eq, Bool-cases,
}

pub data TimelockError : Type 0 where
  not_greater insufficient_difference : TimelockError

unfoldable pub get_timeout_blocks : String → Bool → ℕ
get_timeout_blocks symbol is_maker =
    if str_eq symbol "LTC" then (if is_maker then 576 else 288) else (if is_maker then 144 else 72)

min_difference : ℕ → ℕ
min_difference taker = if ltb (taker / 10) 6 then 6 else taker / 10

unfoldable pub validate_timeout_relationship : ℕ → ℕ → Result TimelockError (Unit {0})
unfolding min_difference
validate_timeout_relationship maker taker =
    if leb maker taker
    then err not_greater
    else (if ltb (maker - taker) (min_difference taker) then err insufficient_difference else ok tt)

-- The maker's timelock is accepted exactly if it exceeds the taker's by 6 blocks and by a tenth of
-- the taker's.
pub validate_timeout_relationship_iff :
    (maker taker : ℕ)
    → (validate_timeout_relationship maker taker ≡ ok tt)
      ↔ ((taker + 6 ≤ maker) × (taker + taker / 10 ≤ maker))
unfolding validate_timeout_relationship
validate_timeout_relationship_iff maker taker =
    (λ h. (ground arith, ground arith), λ h. ground arith)

-- On every chain the two timelocks are accepted, the maker's is twice the taker's, and both fit
-- the 16 bits of a relative timelock.
pub get_timeout_blocks-Fits :
    (symbol : String)
    → let maker = get_timeout_blocks symbol true in
      let taker = get_timeout_blocks symbol false in
      (validate_timeout_relationship maker taker ≡ ok tt)
      × (maker ≡ taker * 2)
      × (0 < taker)
      × (maker ≤ 0xffff)
unfolding get_timeout_blocks validate_timeout_relationship
get_timeout_blocks-Fits symbol = elim (Bool-cases (str_eq symbol "LTC")) [
  | inl e ↦ rw e (refl, refl, omega arith, omega arith)
  | inr e ↦ rw e (refl, refl, omega arith, omega arith)
]
