-- ===== src/Messages/Inbox/Streams/Tests.antt =====
-- Two copies of a message on two streams.
use klingdex.Prelude.{◌≡◌, ◌≢◌, refl, some, List, [], ◌∷◌, true}
use klingdex.Messages.Inbox.{SwapMessage, Received, received_row, has_received_message}
use klingdex.Messages.Inbox.Streams.{
  Node, Event, arrive, run, checking, marking, occurs, node_run, node_run-Once, two_streams,
}

abbrev message : SwapMessage
message = record {
  message_type = "nonce_exchange";
  trade_id = "t";
  message_id = "m";
  sequence_num = 1;
  requires_ack = true;
}

abbrev nothing : Received
nothing = record { inbox = []; sequences = []; handled = [] }

named : message.message_id ≢ ""
named h = absurd cc

-- A node at which one stream has just handled the message, and another one has not begun.
abbrev received_once : Received
received_once = record {
  inbox = received_row "them" message ∷ [];
  sequences = [];
  handled = "m" ∷ [];
}

abbrev one_ahead : Node
one_ahead = two_streams "them" "us" message marking checking received_once

abbrev events : List Event
events =
    run 1 5 (some true) ∷ arrive "them" message ∷ run 0 6 (some true) ∷ run 2 6 (some true) ∷ []

node_run-Once_example :
    (occurs "m" (node_run events one_ahead).received.handled ≡ occurs "m" ("m" ∷ []))
    × (has_received_message "m" (node_run events one_ahead).received.inbox ≡ true)
node_run-Once_example =
    node_run-Once events one_ahead "m" named (unfold has_received_message in refl)
      (refl, (refl, tt))
