-- ===== src/Messages/Retry.antt =====
-- internal/node/retry_worker.go: the backoff of `calculateNextRetry`; internal/node/
-- message_sender.go: what `RetryMessage` does with a message of the outbox. Times are seconds; for
-- `RetryMessage`, the clock is rounded up to a whole second, which no comparison with one can see.
mod Tests
use klingdex.Prelude.{
  ℕ, zero, suc, ◌+◌, ◌*◌, ◌^◌, ◌≤◌, ◌<◌, String, Bool, true, false, ◌&&◌, not, ◌≡◌, refl, arith,
  ltb, leb, if◌then◌else◌, Option, none, some, ap, ltb→lt, ◌↔◌, ◌⊎◌, inl, inr, Bool-cases,
}
use native.Mathlib.Nat.{pow-suc}
use klingdex.Messages.Outbox.{Outbox, OutboxMessage, mark_message_failed, mark_message_expired}

abbrev pub base_interval : ℕ
base_interval = 10

abbrev pub max_interval : ℕ
max_interval = 600

-- The loop: `n` rounds are left. The factor is the float 2.0, which is exact on these values.
unfoldable pub backoff_loop : ℕ → ℕ → ℕ
backoff_loop zero backoff = backoff
backoff_loop (suc n) backoff =
    let rest = backoff_loop n (backoff * 2) in
    if ltb max_interval (backoff * 2) then max_interval else rest

unfoldable pub calculate_next_retry : ℕ → ℕ → ℕ
unfolding backoff_loop
calculate_next_retry now retry_count = now + backoff_loop retry_count base_interval

pub record MessageSenderConfig : Type 0 where
  pub max_retries : ℕ
  pub stop_before_expiry : ℕ

abbrev pub default_message_sender_config : MessageSenderConfig
default_message_sender_config = record { max_retries = 50; stop_before_expiry = 3600 }

-- `now.After(timeout - stop)`, with the subtraction on the other side.
is_too_late : ℕ → MessageSenderConfig → OutboxMessage → Bool
is_too_late now c m = ltb m.swap_timeout (now + c.stop_before_expiry)

exceeds : MessageSenderConfig → OutboxMessage → Bool
exceeds c m = ltb 0 c.max_retries && leb c.max_retries m.retry_count

-- Whether the peer id and the payload can be read are arguments. The result is the table, and
-- whether a delivery is attempted.
unfoldable pub retry_message :
    ℕ → MessageSenderConfig → Bool → Bool → OutboxMessage → Outbox → Outbox × Bool
unfolding is_too_late exceeds mark_message_failed mark_message_expired
retry_message now c peer_ok payload_ok m out =
    if exceeds c m
    then (mark_message_failed m.message_id "max retries exceeded" out, false)
    else (if not peer_ok
        then (mark_message_failed m.message_id "invalid peer ID" out, false)
        else (if not payload_ok
            then (mark_message_failed m.message_id "invalid payload" out, false)
            else (if is_too_late now c m
                then (mark_message_expired m.message_id out, false)
                else (out, true))))

double_pow : (b k : ℕ) → b * 2 * 2 ^ k ≡ b * 2 ^ suc k
double_pow b k = rw (pow-suc 2 k) (omega arith)

pow_pos : (k : ℕ) → 1 ≤ 2 ^ k
pow_pos zero = omega arith
pow_pos (suc k) = rw (pow-suc 2 k) (omega (arith, pow_pos k))

backoff_loop-min :
    (n b : ℕ)
    → b ≤ max_interval
    → (b * 2 ^ n ≤ max_interval → backoff_loop n b ≡ b * 2 ^ n)
      × (max_interval < b * 2 ^ n → backoff_loop n b ≡ max_interval)
unfolding backoff_loop
backoff_loop-min zero b h = (ground arith, ground arith)
backoff_loop-min (suc n) b h =
    let e = double_pow b n in
    let pos = pow_pos n in
    let grows : b * 2 ≤ b * 2 * 2 ^ n = grind arith in
    elim (Bool-cases (ltb max_interval (b * 2))) [
      | inl over ↦
          let lt = ltb→lt max_interval (b * 2) over in
          ((λ k. absurd (omega arith)), λ k. rw over refl)
      | inr fits ↦
          let le : b * 2 ≤ max_interval = ground arith in
          let (small, big) = backoff_loop-min n (b * 2) le in
          rw fits ((λ k. rw (small (omega arith)) e), λ k. big (omega arith))
    ]

-- The pause before the next attempt is 10 seconds, doubled for each attempt so far, and ten
-- minutes where that would be more.
pub calculate_next_retry-min :
    (now n : ℕ)
    → (10 * 2 ^ n ≤ 600 → calculate_next_retry now n ≡ now + 10 * 2 ^ n)
      × (600 < 10 * 2 ^ n → calculate_next_retry now n ≡ now + 600)
unfolding calculate_next_retry
calculate_next_retry-min now n =
    let (a, b) = backoff_loop-min n 10 (omega arith) in
    ((λ h. ap (λ t. now + t) (a h)), (λ h. ap (λ t. now + t) (b h)))

-- A delivery is attempted exactly where the attempts are not used up, the peer id and the payload
-- can be read, and the swap lasts for the configured time; the table is then unchanged.
pub retry_message_iff :
    (now : ℕ) (c : MessageSenderConfig) (peer_ok payload_ok : Bool) (m : OutboxMessage)
    (out : Outbox)
    → (((retry_message now c peer_ok payload_ok m out).1 ≡ true) ↔ (
        (c.max_retries ≡ 0 ⊎ m.retry_count < c.max_retries)
        × (peer_ok ≡ true)
        × (payload_ok ≡ true)
        × (now + c.stop_before_expiry ≤ m.swap_timeout)))
      × ((retry_message now c peer_ok payload_ok m out).1 ≡ true
          → (retry_message now c peer_ok payload_ok m out).0 ≡ out)
unfolding retry_message
retry_message_iff now c peer_ok payload_ok m out =
    ((λ h. ground arith, λ h. ground arith), λ h. ground arith)
