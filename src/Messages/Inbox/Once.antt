-- ===== src/Messages/Inbox/Once.antt =====
-- What happens to a message that its handler refuses, and that comes again.
mod Tests
use klingdex.Prelude.{
  ℕ, ◌+◌, ◌≤◌, ◌<◌, ◌^◌, String, Bool, true, false, ◌||◌, ◌≡◌, ◌≢◌, refl, sym, ◌∙◌, ap, inl, inr,
  Option, none, some, List, [], ◌∷◌, ◌++◌, arith, if◌then◌else◌, str_eq, eq_iff, Bool-cases,
  Option-cases,
}
use klingdex.Tables.{any_where, any_where-update, storable}
use klingdex.Messages.Inbox.{
  InboxMessage, has_id, has_received_message, record_received_message, mark_message_processed,
  mark_ack_sent, SwapMessage, Received, Ack, success, handler_failed, record_message, received_row,
  process_message, handle_stream,
}

any_where-snoc :
    {A : Type 0} (q : A → Bool) (rows : List A) (x : A)
    → any_where q (rows ++ (x ∷ [])) ≡ (any_where q rows || q x)
unfolding any_where
any_where-snoc q [] x = ground arith
any_where-snoc q (r ∷ rs) x = ground (arith, any_where-snoc q rs x)

record-has :
    (now : ℕ) (i : String) (m : InboxMessage) (rows : List InboxMessage)
    → storable m.sequence_num ≡ true
    → has_received_message i (record_received_message now m rows)
      ≡ (has_received_message i rows || str_eq m.message_id i)
unfolding has_received_message record_received_message
record-has now i m rows small = elim (Bool-cases (any_where (has_id m.message_id) rows)) [
  | inr new' ↦ rw (new', small) (any_where-snoc (has_id i) rows _)
  | inl known ↦ rw known (elim (Bool-cases (str_eq m.message_id i)) [
    | inr other ↦ ground arith
    | inl same ↦
        let e : any_where (has_id i) rows ≡ true = rw ((eq_iff m.message_id i).0 same) at known in
        ground (arith, e)
  ])
]

process-has :
    (o : Option Bool) (now : ℕ) (i : String) (m : SwapMessage) (s : Received)
    → has_received_message i (process_message (λ x. o) now m s).0.inbox
      ≡ has_received_message i s.inbox
unfolding has_received_message process_message mark_message_processed mark_ack_sent
process-has none now i m s = refl
process-has (some ok') now i m s = ground (
  arith,
  any_where-update (has_id i) (has_id m.message_id)
      (λ (r : InboxMessage). record r { processed_at = some now }) s.inbox (λ r. refl),
  any_where-update (has_id i) (has_id m.message_id)
      (λ (r : InboxMessage). record r { ack_sent = true })
      (mark_message_processed now m.message_id s.inbox) (λ r. refl),
)

pub handle_stream_new :
    (o : Option Bool) (now : ℕ) (peer : String) (m : SwapMessage) (s : Received)
    → str_eq m.message_id "" ≡ false
    → has_received_message m.message_id s.inbox ≡ false
    → handle_stream (λ x. o) now peer m s
      ≡ process_message (λ x. o) now m (record_message now peer m s)
unfolding handle_stream
handle_stream_new o now peer m s named fresh = rw (named, fresh) refl

pub handle_stream_known :
    (o : Option Bool) (now : ℕ) (peer : String) (m : SwapMessage) (s : Received)
    → str_eq m.message_id "" ≡ false
    → has_received_message m.message_id s.inbox ≡ true
    → handle_stream (λ x. o) now peer m s ≡ (s, success ∷ [])
unfolding handle_stream
handle_stream_known o now peer m s named known = rw (named, known) refl

refusal :
    (now : ℕ) (m : SwapMessage) (s : Received)
    → m.requires_ack ≡ true
    → (process_message (λ x. some false) now m s).1 ≡ handler_failed ∷ []
unfolding process_message
refusal now m s wanted = rw wanted refl

-- A new message, with a sequence number below `2 ^ 63`, that its handler refuses is answered with
-- an error, so that its sender sends it again. The second time it is answered with a success, and
-- no handler runs, whatever it would do.
pub refused_message-Acked :
    (now later : ℕ) (peer again : String) (m : SwapMessage) (o : Option Bool) (s : Received)
    → str_eq m.message_id "" ≡ false
    → has_received_message m.message_id s.inbox ≡ false
    → m.requires_ack ≡ true
    → m.sequence_num < 2 ^ 63
    → let first = handle_stream (λ x. some false) now peer m s in
      let second = handle_stream (λ x. o) later again m first.0 in
      (first.1 ≡ handler_failed ∷ []) × (second.1 ≡ success ∷ []) × (second.0 ≡ first.0)
unfolding record_message
refused_message-Acked now later peer again m o s named fresh wanted small =
    let s' = record_message now peer m s in
    let self = (eq_iff m.message_id m.message_id).1 refl in
    let has =
      process-has (some false) now m.message_id m s'
      ∙ record-has now m.message_id (received_row peer m) s.inbox (ground arith)
      ∙ rw (fresh, self) refl in
    let known =
      handle_stream_known o later again m (process_message (λ x. some false) now m s').0 named
        has in
    rw (handle_stream_new (some false) now peer m s named fresh)
      (refusal now m s' wanted, ap (λ r. r.1) known, ap (λ r. r.0) known)
