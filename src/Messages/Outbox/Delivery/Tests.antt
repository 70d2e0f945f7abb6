-- ===== src/Messages/Outbox/Delivery/Tests.antt =====
-- Two messages, and statements on them.
use klingdex.Prelude.{ℕ, ◌≤◌, String, none, List, [], ◌∷◌, length, All}
use klingdex.Messages.Outbox.{Outbox, OutboxMessage, get_pending_messages, expire_old_messages}
use klingdex.Messages.Outbox.{pending}
use klingdex.Messages.Outbox.Delivery.{
  Statement, enqueue, acked, retry, cleanup, IsTimely, get_pending-IsTimely,
}

abbrev message : String → ℕ → OutboxMessage
message i at = record {
  message_id = i;
  trade_id = "t";
  peer_id = "p";
  message_type = "nonce";
  payload = [];
  sequence_num = 1;
  swap_timeout = 90000;
  created_at = 5;
  retry_count = 2;
  last_attempt = none;
  next_retry_at = at;
  acked_at = none;
  status = pending;
  error_message = "";
}

abbrev two_messages : Outbox
two_messages = message "m1" 50 ∷ message "m2" 40 ∷ []

abbrev statements : List (ℕ × Statement)
statements =
    (60, enqueue (message "m1" 0)) ∷ (61, acked "m2") ∷ (62, retry "m2" 99) ∷ (63, cleanup 6) ∷ []

get_pending-IsTimely_example :
    let batch = get_pending_messages 60 (expire_old_messages 60 3600 two_messages) in
    All (IsTimely 60 3600) batch × (length batch ≤ 100)
get_pending-IsTimely_example = get_pending-IsTimely 60 3600 two_messages
