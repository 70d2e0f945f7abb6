-- ===== src/Swap/Heights.antt =====
-- internal/swap/swap.go: block heights of a swap and the tests on them, and `CanRefund` by time.
-- A height is a uint32, so adding a timeout wraps.
mod Tests
use klingdex.Prelude.{
  ℕ, ◌+◌, ◌%◌, ◌^◌, ◌<◌, Bool, false, ◌≡◌, inl, inr, Option, none, some, arith, ltb, leb,
  if◌then◌else◌, Option-cases,
}
use klingdex.Config.Timeouts.{
  ChainTimeoutConfig, zero_timeout, get_chain_timeout, is_safe_to_complete, blocks_until_timeout,
  get_chain_timeout-IsSound,
}
use klingdex.Swap.Types.{
  Role, initiator, responder, SwapError, unsupported_chain, timeout_race, Swap, is_testnet,
  is_initiator,
}

-- `cfg, _ := config.GetChainTimeout(...)`
abbrev pub timeout_or_zero : Option ChainTimeoutConfig → ChainTimeoutConfig
timeout_or_zero none = zero_timeout
timeout_or_zero (some c) = c

abbrev pub add_u32 : ℕ → ℕ → ℕ
add_u32 a b = (a + b) % 2 ^ 32

unfoldable pub set_block_heights : Swap → ℕ → ℕ → Swap
set_block_heights s offer_height request_height =
    let test = is_testnet s.network in
    let offer_cfg = timeout_or_zero (get_chain_timeout s.offer.offer_chain test) in
    let request_cfg = timeout_or_zero (get_chain_timeout s.offer.request_chain test) in
    if is_initiator s.role
    then record s {
      offer_chain_start_height = offer_height;
      request_chain_start_height = request_height;
      offer_chain_timeout_height = add_u32 offer_height offer_cfg.maker_blocks;
      request_chain_timeout_height = add_u32 request_height request_cfg.taker_blocks;
    }
    else record s {
      offer_chain_start_height = offer_height;
      request_chain_start_height = request_height;
      offer_chain_timeout_height = add_u32 offer_height offer_cfg.taker_blocks;
      request_chain_timeout_height = add_u32 request_height request_cfg.maker_blocks;
    }

-- One chain of `Swap.IsSafeToComplete`; `none` is Go's nil error.
check_chain : Option ChainTimeoutConfig → ℕ → ℕ → Option SwapError
check_chain none current timeout = some unsupported_chain
check_chain (some c) current timeout =
    if is_safe_to_complete current timeout c.safety_margin_blocks then none else some timeout_race

-- The first error, if there is one.
abbrev or_else : Option SwapError → Option SwapError → Option SwapError
or_else none e = e
or_else (some x) e = some x

unfoldable pub swap_is_safe_to_complete : Swap → ℕ → ℕ → Option SwapError
unfolding check_chain
swap_is_safe_to_complete s offer_current request_current =
    let test = is_testnet s.network in
    or_else
      (check_chain (get_chain_timeout s.offer.offer_chain test) offer_current
        s.offer_chain_timeout_height)
      (check_chain (get_chain_timeout s.offer.request_chain test) request_current
        s.request_chain_timeout_height)

unfoldable pub can_refund_by_block : Swap → ℕ → ℕ → Bool
can_refund_by_block s offer_current request_current =
    if is_initiator s.role
    then leb s.offer_chain_timeout_height offer_current
    else leb s.request_chain_timeout_height request_current

unfoldable pub blocks_until_refund : Swap → ℕ → ℕ
blocks_until_refund s current =
    blocks_until_timeout current
      (if is_initiator s.role then s.offer_chain_timeout_height else s.request_chain_timeout_height)

-- `now.After(...)`
unfoldable pub can_refund : Swap → ℕ → Bool
can_refund s now =
    if is_initiator s.role
    then ltb (s.created_at + s.initiator_lock) now
    else ltb (s.created_at + s.responder_lock) now

-- Where it is safe to complete, neither party may refund: the role does not matter. The party
-- whose chain is at the given height has then at least one block left until its refund.
pub safe_excludes_refund :
    (s : Swap) (r : Role) (offer_current request_current : ℕ)
    → swap_is_safe_to_complete s offer_current request_current ≡ none
    → let own = if is_initiator r then offer_current else request_current in
      (can_refund_by_block (record s { role = r }) offer_current request_current ≡ false)
      × (0 < blocks_until_refund (record s { role = r }) own)
unfolding swap_is_safe_to_complete can_refund_by_block blocks_until_refund is_safe_to_complete
    blocks_until_timeout
safe_excludes_refund s initiator a b h =
    elim (Option-cases (get_chain_timeout s.offer.offer_chain (is_testnet s.network))) [
      | inl e ↦ absurd (ground arith)
      | inr (c, e) ↦ ground arith
    ]
safe_excludes_refund s responder a b h =
    elim (Option-cases (get_chain_timeout s.offer.offer_chain (is_testnet s.network))) [
      | inl e ↦ absurd (ground arith)
      | inr (c, e) ↦
          elim (Option-cases (get_chain_timeout s.offer.request_chain (is_testnet s.network))) [
            | inl f ↦ absurd (ground arith)
            | inr (d, f) ↦ ground arith
          ]
    ]

-- A swap can be refunded by height exactly when no blocks are left until its refund, if the
-- height is that of the party's own chain.
pub can_refund_iff_no_blocks :
    (s : Swap) (offer_current request_current : ℕ)
    → let own = if is_initiator s.role then offer_current else request_current in
      can_refund_by_block s offer_current request_current ≡ leb (blocks_until_refund s own) 0
unfolding can_refund_by_block blocks_until_refund blocks_until_timeout
can_refund_iff_no_blocks s a b = ground arith

-- From the same heights of two configured chains, with no wrap, the initiator's heights give the
-- initiator's own lock more blocks than the responder's by the tables' factor. The responder's
-- record of the same swap has the two locks the other way round: its own lock on the request chain
-- is the longer one, and both timeout heights differ from the initiator's.
pub set_block_heights_by_role :
    (s : Swap) (offer_height request_height : ℕ) {a b : ChainTimeoutConfig}
    → get_chain_timeout s.offer.offer_chain (is_testnet s.network) ≡ some a
    → get_chain_timeout s.offer.request_chain (is_testnet s.network) ≡ some b
    → offer_height + a.maker_blocks < 2 ^ 32
    → request_height + b.maker_blocks < 2 ^ 32
    → let i = set_block_heights (record s { role = initiator }) offer_height request_height in
      let r = set_block_heights (record s { role = responder }) offer_height request_height in
      (i.offer_chain_timeout_height ≡ offer_height + a.maker_blocks)
      × (i.request_chain_timeout_height ≡ request_height + b.taker_blocks)
      × (r.offer_chain_timeout_height + a.taker_blocks ≡ i.offer_chain_timeout_height)
      × (i.request_chain_timeout_height + b.taker_blocks ≡ r.request_chain_timeout_height)
      × (r.offer_chain_timeout_height < i.offer_chain_timeout_height)
      × (i.request_chain_timeout_height < r.request_chain_timeout_height)
unfolding set_block_heights
set_block_heights_by_role s oh rh {a} {b} ea eb ha hb =
    let sa = get_chain_timeout-IsSound s.offer.offer_chain (is_testnet s.network) ea in
    let sb = get_chain_timeout-IsSound s.offer.request_chain (is_testnet s.network) eb in
    rw (ea, eb) (ground (arith, sa, sb))
