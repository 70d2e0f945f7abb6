-- ===== src/Messages/Outbox.antt =====
-- internal/storage/message_queue.go: the outbox. The table is the list of its rows in the order of
-- their ids, and each SQL statement a function on it; `now` is the clock. A failure of the
-- database itself is left out, but for the UNIQUE constraint on the message id.
pub mod Delivery
use klingdex.Prelude.{
  ℕ, suc, ◌+◌, ◌≤◌, ◌<◌, String, Bool, true, false, ◌&&◌, ◌||◌, not, ◌≡◌, refl, ◌≢◌, Option, none,
  some, List, [], ◌∷◌, ◌++◌, arith, ltb, leb, if◌then◌else◌, length, take, str_eq, eq_iff, All,
  Result, ok, err, ◌⊎◌, inl, inr, Bool-cases, All-append, leb→le, sym,
}
use klingdex.Tables.{update_where, filter_where, any_where, order_with, ascending}

pub data OutboxStatus : Type 0 where
  pending sent acked failed expired : OutboxStatus

pub record OutboxMessage : Type 0 where
  pub message_id : String
  pub trade_id : String
  pub peer_id : String
  pub message_type : String
  pub payload : List ℕ
  pub sequence_num : ℕ
  pub swap_timeout : ℕ
  pub created_at : ℕ
  pub retry_count : ℕ
  pub last_attempt : Option ℕ
  pub next_retry_at : ℕ
  pub acked_at : Option ℕ
  pub status : OutboxStatus
  pub error_message : String

abbrev pub Outbox : Type 0
Outbox = List OutboxMessage

-- `status = 'pending' OR status = 'sent'`
abbrev pub is_open : OutboxStatus → Bool
is_open pending = true
is_open sent = true
is_open _ = false

abbrev pub has_id : String → OutboxMessage → Bool
has_id i m = str_eq m.message_id i

abbrev pub contains_id : String → Outbox → Bool
contains_id i out = any_where (has_id i) out

-- The row that `EnqueueMessage` inserts; the fields that it does not read are those of `msg`.
abbrev pub queued : ℕ → OutboxMessage → OutboxMessage
queued now msg = record msg {
  created_at = now;
  retry_count = 0;
  last_attempt = none;
  next_retry_at = now;
  acked_at = none;
  status = pending;
  error_message = "";
}

-- `none` is the error of the constraint.
unfoldable pub enqueue_message : ℕ → OutboxMessage → Outbox → Option Outbox
unfolding any_where
enqueue_message now msg out =
    if contains_id msg.message_id out then none else some (out ++ (queued now msg ∷ []))

abbrev pub is_due : ℕ → OutboxMessage → Bool
is_due now m = is_open m.status && leb m.next_retry_at now

unfoldable pub get_pending_messages : ℕ → Outbox → Outbox
unfolding filter_where order_with
get_pending_messages now out =
    take 100 (order_with (ascending (λ m. m.next_retry_at)) (filter_where (is_due now) out))

unfoldable pub get_pending_for_peer : String → Outbox → Outbox
unfolding filter_where order_with
get_pending_for_peer peer out =
    order_with (ascending (λ m. m.sequence_num))
      (filter_where (λ m. str_eq m.peer_id peer && is_open m.status) out)

unfoldable pub get_pending_for_trade : String → Outbox → Outbox
unfolding filter_where order_with
get_pending_for_trade trade out =
    order_with (ascending (λ m. m.sequence_num))
      (filter_where (λ m. str_eq m.trade_id trade && is_open m.status) out)

unfoldable pub mark_message_sent : ℕ → String → Outbox → Outbox
unfolding update_where
mark_message_sent now i out =
    update_where (has_id i)
      (λ m. record m { status = sent; last_attempt = some now; retry_count = m.retry_count + 1 })
      out

unfoldable pub mark_message_acked : ℕ → String → Outbox → Outbox
unfolding update_where
mark_message_acked now i out =
    update_where (has_id i) (λ m. record m { status = acked; acked_at = some now }) out

unfoldable pub mark_message_failed : String → String → Outbox → Outbox
unfolding update_where
mark_message_failed i reason out =
    update_where (has_id i) (λ m. record m { status = failed; error_message = reason }) out

unfoldable pub mark_message_expired : String → Outbox → Outbox
unfolding update_where
mark_message_expired i out =
    update_where (has_id i)
      (λ m. record m { status = expired; error_message = "swap timeout expired" }) out

unfoldable pub schedule_retry : String → ℕ → Outbox → Outbox
unfolding update_where
schedule_retry i at out =
    update_where (has_id i) (λ m. record m { status = pending; next_retry_at = at }) out

abbrev pub is_expiring : ℕ → OutboxMessage → Bool
is_expiring deadline m = is_open m.status && leb m.swap_timeout deadline

unfoldable pub expire_old_messages : ℕ → ℕ → Outbox → Outbox
unfolding update_where
expire_old_messages now buffer out =
    update_where (is_expiring (now + buffer))
      (λ m. record m { status = expired; error_message = "swap timeout approaching" }) out

-- The rows that stay, and how many were deleted.
unfoldable pub cleanup_old_messages : ℕ → Outbox → Outbox × ℕ
unfolding filter_where
cleanup_old_messages older out = (
  filter_where (λ m. is_open m.status || not (ltb m.created_at older)) out,
  length (filter_where (λ m. not (is_open m.status) && ltb m.created_at older) out),
)
