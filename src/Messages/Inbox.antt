-- ===== src/Messages/Inbox.antt =====
-- The messages that a node has received: the inbox of internal/storage/message_queue.go, and
-- `handleStream` of internal/node/stream_handler.go from the parsed message on. The numbering of
-- the rows, and a failure of the database itself, are left out. The node has a database.
pub mod Once
pub mod Streams
use klingdex.Prelude.{
  ◌||◌, not, ℕ, String, Bool, true, false, Option, none, some, List, [], ◌∷◌, ◌++◌, ltb, leb,
  if◌then◌else◌, length, str_eq,
}
use klingdex.Tables.{storable, update_where, filter_where, find_where, any_where}
use klingdex.Messages.Sequences.{Sequences, update_remote_sequence}

pub record InboxMessage : Type 0 where
  pub message_id : String
  pub trade_id : String
  pub peer_id : String
  pub message_type : String
  pub sequence_num : ℕ
  pub received_at : ℕ
  pub processed_at : Option ℕ
  pub ack_sent : Bool

abbrev pub has_id : String → InboxMessage → Bool
has_id i m = str_eq m.message_id i

unfoldable pub has_received_message : String → List InboxMessage → Bool
unfolding any_where
has_received_message i rows = any_where (has_id i) rows

-- `INSERT OR IGNORE`, of the columns that an insert names. A sequence number that the database
-- cannot store fails it, which is only logged.
unfoldable pub record_received_message : ℕ → InboxMessage → List InboxMessage → List InboxMessage
unfolding any_where
record_received_message now m rows =
    if any_where (has_id m.message_id) rows || not (storable m.sequence_num)
    then rows
    else rows ++ (record m { received_at = now; processed_at = none; ack_sent = false } ∷ [])

unfoldable pub mark_message_processed : ℕ → String → List InboxMessage → List InboxMessage
unfolding update_where
mark_message_processed now i rows =
    update_where (has_id i) (λ m. record m { processed_at = some now }) rows

unfoldable pub mark_ack_sent : String → List InboxMessage → List InboxMessage
unfolding update_where
mark_ack_sent i rows = update_where (has_id i) (λ m. record m { ack_sent = true }) rows

unfoldable pub get_inbox_message : String → List InboxMessage → Option InboxMessage
unfolding find_where
get_inbox_message i rows = find_where (has_id i) rows

-- The rows that are left, and how many were deleted.
unfoldable pub cleanup_old_inbox_messages : ℕ → List InboxMessage → List InboxMessage × ℕ
unfolding filter_where
cleanup_old_inbox_messages older_than rows = (
  filter_where (λ m. leb older_than m.received_at) rows,
  length (filter_where (λ m. ltb m.received_at older_than) rows),
)

-- What `handleStream` reads of a message.
pub record SwapMessage : Type 0 where
  pub message_type : String
  pub trade_id : String
  pub message_id : String
  pub sequence_num : ℕ
  pub requires_ack : Bool

-- The acknowledgements: `Success`, or the error's text.
pub data Ack : Type 0 where
  success unknown_type handler_failed : Ack

-- The tables, and the ids of the messages that were passed to a handler, the latest first.
pub record Received : Type 0 where
  pub inbox : List InboxMessage
  pub sequences : Sequences
  pub handled : List String

abbrev pub received_row : String → SwapMessage → InboxMessage
received_row peer m = record {
  message_id = m.message_id;
  trade_id = m.trade_id;
  peer_id = peer;
  message_type = m.message_type;
  sequence_num = m.sequence_num;
  received_at = 0;
  processed_at = none;
  ack_sent = false;
}

unfoldable pub record_message : ℕ → String → SwapMessage → Received → Received
unfolding record_received_message update_remote_sequence
record_message now peer m s = record s {
  inbox = record_received_message now (received_row peer m) s.inbox;
  sequences =
      if ltb 0 m.sequence_num
      then update_remote_sequence now m.trade_id m.sequence_num s.sequences
      else s.sequences;
}

abbrev pub ack_of : Bool → Ack
ack_of true = success
ack_of false = handler_failed

abbrev if_required : SwapMessage → Ack → List Ack
if_required m a = if m.requires_ack then a ∷ [] else []

-- The tail of `handleStream`. `outcome` is the handler of the type, if there is one, and whether it
-- succeeds.
unfoldable pub process_message :
    (SwapMessage → Option Bool) → ℕ → SwapMessage → Received → Received × List Ack
unfolding mark_message_processed mark_ack_sent
process_message outcome now m s = elim (outcome m) [
  | none ↦ (s, if_required m unknown_type)
  | some ok' ↦
      let marked = mark_message_processed now m.message_id s.inbox in
      let acked = if m.requires_ack then mark_ack_sent m.message_id marked else marked in
      (
        record s {
          inbox = if str_eq m.message_id "" then s.inbox else acked;
          handled = m.message_id ∷ s.handled;
        },
        if_required m (ack_of ok'),
      )
]

-- `handleStream` on a stream while no other one is open: a message without an id is processed each
-- time, and a duplicate is acknowledged. Streams that are open at once are in Streams.
unfoldable pub handle_stream :
    (SwapMessage → Option Bool) → ℕ → String → SwapMessage → Received → Received × List Ack
unfolding has_received_message record_message process_message
handle_stream outcome now peer m s =
    if str_eq m.message_id ""
    then process_message outcome now m s
    else (if has_received_message m.message_id s.inbox
        then (s, success ∷ [])
        else process_message outcome now m (record_message now peer m s))
