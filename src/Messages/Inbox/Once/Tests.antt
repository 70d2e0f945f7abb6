-- ===== src/Messages/Inbox/Once/Tests.antt =====
-- A message that comes twice.
use klingdex.Prelude.{◌≡◌, arith, refl, some, [], ◌∷◌, true, false}
use klingdex.Messages.Inbox.{SwapMessage, Received, handle_stream, handler_failed, success}
use klingdex.Messages.Inbox.Once.{refused_message-Acked}

abbrev message : SwapMessage
message = record {
  message_type = "nonce_exchange";
  trade_id = "t";
  message_id = "m";
  sequence_num = 1;
  requires_ack = true;
}

abbrev nothing : Received
nothing = record { inbox = []; sequences = []; handled = [] }

refused_message-Acked_example :
    let first = handle_stream (λ x. some false) 1 "them" message nothing in
    let second = handle_stream (λ x. some true) 2 "them" message first.0 in
    (first.1 ≡ handler_failed ∷ []) × (second.1 ≡ success ∷ []) × (second.0 ≡ first.0)
unfolding klingdex.Messages.Inbox.has_received_message
refused_message-Acked_example =
    refused_message-Acked 1 2 "them" "them" message (some true) nothing refl refl refl (omega arith)
