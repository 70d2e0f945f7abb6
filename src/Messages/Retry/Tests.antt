-- ===== src/Messages/Retry/Tests.antt =====
-- A message with two attempts behind it.
use klingdex.Prelude.{ℕ, ◌+◌, ◌≤◌, ◌<◌, String, true, ◌≡◌, none, ◌↔◌, ◌⊎◌}
use klingdex.Messages.Outbox.{Outbox, OutboxMessage}
use klingdex.Prelude.{[], ◌∷◌}
use klingdex.Messages.Outbox.{pending}
use klingdex.Messages.Retry.{retry_message, retry_message_iff, default_message_sender_config}

abbrev message : String → ℕ → OutboxMessage
message i at = record {
  message_id = i;
  trade_id = "t";
  peer_id = "p";
  message_type = "nonce";
  payload = [];
  sequence_num = 1;
  swap_timeout = 90000;
  created_at = 5;
  retry_count = 2;
  last_attempt = none;
  next_retry_at = at;
  acked_at = none;
  status = pending;
  error_message = "";
}

abbrev two_messages : Outbox
two_messages = message "m1" 50 ∷ message "m2" 40 ∷ []

retry_message_iff_example :
    (((retry_message 1000 default_message_sender_config true true (message "m1" 50) two_messages).1
        ≡ true)
      ↔ ((default_message_sender_config.max_retries ≡ 0
            ⊎ (message "m1" 50).retry_count < default_message_sender_config.max_retries)
          × (true ≡ true)
          × (true ≡ true)
          × (1000 + default_message_sender_config.stop_before_expiry
              ≤ (message "m1" 50).swap_timeout)))
    × ((retry_message 1000 default_message_sender_config true true (message "m1" 50) two_messages).1
          ≡ true
        → (retry_message 1000 default_message_sender_config true true
            (message "m1" 50)
            two_messages).0
          ≡ two_messages)
retry_message_iff_example =
    retry_message_iff 1000 default_message_sender_config true true (message "m1" 50) two_messages
