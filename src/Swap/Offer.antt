-- ===== src/Swap/Offer.antt =====
-- internal/swap/swap.go: `NewChainConfig`, `SupportsMethod`, `Offer.Validate` and `NewSwap`.
mod Tests
use mathlib.Core.Option
use klingdex.Prelude.{
  ℕ, ◌≤◌, ◌<◌, String, Bool, true, false, ◌&&◌, ◌||◌, ◌≡◌, refl, ◌↔◌, ◌⊎◌, Option, none, some, List,
  [], arith, leb, Result, ok, err, ◌>>=◌, ◌>>◌, guard,
}
use klingdex.Chain
use klingdex.Chain.{Network, ChainType, Params}
use klingdex.Config.Coins.{get_coin, limits}
use klingdex.Swap.Types.{
  Role, init, Method, musig2, htlc, SwapError, unsupported_chain, method_not_supported,
  below_minimum, above_maximum, random_failed, random_id, Offer, Swap,
}

pub record ChainConfig : Type 0 where
  pub symbol : String
  pub network : Network
  pub supports_taproot : Bool
  pub decimals : ℕ

chain_config_of : String → Network → Option Params → Result SwapError ChainConfig
chain_config_of s n none = err unsupported_chain
chain_config_of s n (some p) = ok (record {
  symbol = s;
  network = n;
  supports_taproot = p.supports_taproot;
  decimals = p.decimals;
})

unfoldable pub new_chain_config : String → Network → Result SwapError ChainConfig
unfolding chain_config_of
new_chain_config s n = chain_config_of s n (Chain.get s n)

abbrev is_htlc_type : ChainType → Bool
is_htlc_type ChainType.bitcoin = true
is_htlc_type ChainType.evm = true
is_htlc_type _ = false

-- The type of the chain is one on which an HTLC can be made.
abbrev has_htlc : Option Params → Bool
has_htlc none = false
has_htlc (some p) = is_htlc_type p.chain_type

unfoldable pub supports_method : ChainConfig → Method → Bool
supports_method c musig2 = c.supports_taproot
supports_method c htlc = has_htlc (Chain.get c.symbol c.network)
supports_method c _ = false

-- The checks of one amount against the limits of its coin; a limit of 0 from above is none.
unfoldable pub check_amount : ℕ → ℕ × ℕ → Result SwapError (Unit {0})
check_amount amount (low, high) = do
  guard (leb low amount) below_minimum
  guard (leb high 0 || leb amount high) above_maximum

unfoldable pub validate : Offer → Network → Result SwapError (Unit {0})
unfolding new_chain_config supports_method check_amount get_coin
validate o n = do
  offer_cfg ← new_chain_config o.offer_chain n
  request_cfg ← new_chain_config o.request_chain n
  guard (supports_method offer_cfg o.method) method_not_supported
  guard (supports_method request_cfg o.method) method_not_supported
  check_amount o.offer_amount (limits (get_coin o.offer_chain))
  check_amount o.request_amount (limits (get_coin o.request_chain))

-- `config.DefaultSwapConfig` in nanoseconds: 48 hours and 24 hours.
abbrev initiator_lock_time : ℕ
initiator_lock_time = 172800000000000

abbrev responder_lock_time : ℕ
responder_lock_time = 86400000000000

-- `NewSwap`: `random` is what `rand.Read` gave for the id, and `now` the clock.
unfoldable pub new_swap :
    Network → Method → Role → Offer → Option (List ℕ) → ℕ → Result SwapError Swap
unfolding validate
new_swap n m r o random now = do
  validate o n
  elim random [
    | none ↦ err random_failed
    | some id ↦ ok (record {
      id = random_id id;
      network = n;
      method = m;
      role = r;
      state = init;
      offer = o;
      created_at = now;
      initiator_lock = initiator_lock_time;
      responder_lock = responder_lock_time;
      offer_chain_start_height = 0;
      request_chain_start_height = 0;
      offer_chain_timeout_height = 0;
      request_chain_timeout_height = 0;
      local_pub_key = [];
      remote_pub_key = [];
      aggregated_pub_key = [];
      local_funding_tx_id = "";
      local_funding_vout = 0;
      local_funding_confirms = 0;
      remote_funding_tx_id = "";
      remote_funding_vout = 0;
      remote_funding_confirms = 0;
      local_offer_wallet_addr = "";
      local_request_wallet_addr = "";
      remote_offer_wallet_addr = "";
      remote_request_wallet_addr = "";
      secret = [];
      secret_hash = [];
    })
  ]

-- What one side of a valid offer satisfies: the chain is registered, the method is one that it
-- carries, and the amount lies within the coin's limits.
abbrev pub IsTradable : String → Network → Method → ℕ → Type 0
IsTradable symbol n m amount =
    (p : Params) × (Chain.get symbol n ≡ some p)
    × (((m ≡ musig2) × (p.supports_taproot ≡ true))
        ⊎ ((m ≡ htlc) × (is_htlc_type p.chain_type ≡ true)))
    × ((limits (get_coin symbol)).0 ≤ amount)
    × (0 < (limits (get_coin symbol)).1 → amount ≤ (limits (get_coin symbol)).1)

-- The checks of one side, as the source makes them of both in turn.
abbrev carries : String → Network → Method → Params → Bool
carries symbol n m p =
    supports_method
      (record {
        symbol = symbol;
        network = n;
        supports_taproot = p.supports_taproot;
        decimals = p.decimals;
      })
      m

abbrev not_below : String → ℕ → Bool
not_below symbol amount = leb (limits (get_coin symbol)).0 amount

abbrev not_above : String → ℕ → Bool
not_above symbol amount =
    leb (limits (get_coin symbol)).1 0 || leb amount (limits (get_coin symbol)).1

passes : String → Network → Method → ℕ → Option Params → Bool
passes symbol n m amount none = false
passes symbol n m amount (some p) =
    carries symbol n m p && (not_below symbol amount && not_above symbol amount)

-- Six checks in the order of `Validate`, and their grouping by side.
guards_iff :
    (a b c d e f : Bool)
    → ((guard a method_not_supported
          >> (guard b method_not_supported
              >> ((guard c below_minimum >> guard d above_maximum)
                  >> (guard e below_minimum >> guard f above_maximum))))
        ≡ ok tt)
      ↔ (((a && (c && d)) ≡ true) × ((b && (e && f)) ≡ true))
guards_iff a b c d e f = (λ h. ground arith, λ h. ground arith)

validate_of_passes :
    (o : Offer) (n : Network) {a b : Option Params}
    → Chain.get o.offer_chain n ≡ a
    → Chain.get o.request_chain n ≡ b
    → (validate o n ≡ ok tt) ↔ (
        (passes o.offer_chain n o.method o.offer_amount a ≡ true)
        × (passes o.request_chain n o.method o.request_amount b ≡ true))
unfolding validate passes
validate_of_passes o n {a = none} {b} ea eb = (λ h. ground arith, λ h. ground arith)
validate_of_passes o n {a = some p} {b = none} ea eb = (λ h. ground arith, λ h. ground arith)
validate_of_passes o n {a = some p} {b = some q} ea eb =
    rw (ea, eb)
      (guards_iff (carries o.offer_chain n o.method p) (carries o.request_chain n o.method q)
        (not_below o.offer_chain o.offer_amount) (not_above o.offer_chain o.offer_amount)
        (not_below o.request_chain o.request_amount) (not_above o.request_chain o.request_amount))

IsTradable-of-passes :
    (s : String) (n : Network) (m : Method) (amount : ℕ) {a : Option Params}
    → Chain.get s n ≡ a
    → passes s n m amount a ≡ true
    → IsTradable s n m amount
unfolding passes supports_method
IsTradable-of-passes s n m amount {a = none} e h = cc
IsTradable-of-passes s n m amount {a = some p} e h =
    (p, e, ground arith, ground arith, ground arith)

passes-of-IsTradable :
    (s : String) (n : Network) (m : Method) (amount : ℕ)
    → IsTradable s n m amount
    → passes s n m amount (Chain.get s n) ≡ true
unfolding passes supports_method
passes-of-IsTradable s n m amount (p, e, c, low, high) = rw e (ground arith)

-- An offer is valid exactly if both of its sides are tradable.
pub validate_iff :
    (o : Offer) (n : Network)
    → (validate o n ≡ ok tt) ↔ (
        IsTradable o.offer_chain n o.method o.offer_amount
        × IsTradable o.request_chain n o.method o.request_amount)
validate_iff o n =
    let h = validate_of_passes o n refl refl in
    (
      (λ v. (
        IsTradable-of-passes o.offer_chain n o.method o.offer_amount refl (h.0 v).0,
        IsTradable-of-passes o.request_chain n o.method o.request_amount refl (h.0 v).1,
      )),
      (λ t. h.1 (
        passes-of-IsTradable o.offer_chain n o.method o.offer_amount t.0,
        passes-of-IsTradable o.request_chain n o.method o.request_amount t.1,
      )),
    )

-- A swap is created only from a valid offer and with an id. It is then in `init`, unfunded, and
-- locks the initiator's funds for longer than the responder's.
pub new_swap-ok :
    (n : Network) (m : Method) (r : Role) (o : Offer) (random : Option (List ℕ)) (now : ℕ)
    {s : Swap}
    → new_swap n m r o random now ≡ ok s
    → (validate o n ≡ ok tt)
      × (Option.map random_id random ≡ some s.id)
      × (s.state ≡ init)
      × (s.offer ≡ o)
      × (s.created_at ≡ now)
      × (s.local_funding_tx_id ≡ "")
      × (s.responder_lock < s.initiator_lock)
unfolding new_swap
new_swap-ok n m r o random now h = ground arith

-- A new swap takes its network, method, role and offer from the call.
pub new_swap-Keeps :
    (n : Network) (m : Method) (r : Role) (o : Offer) (random : Option (List ℕ)) (now : ℕ)
    {s : Swap}
    → new_swap n m r o random now ≡ ok s
    → (s.network ≡ n) × (s.method ≡ m) × (s.role ≡ r) × (s.offer ≡ o) × (s.secret_hash ≡ [])
unfolding new_swap
new_swap-Keeps n m r o random now h = ground arith
