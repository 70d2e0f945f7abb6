-- ===== src/Messages/Inbox/Streams.antt =====
-- Streams that are open at once: `handleStream` of internal/node/stream_handler.go, which libp2p
-- runs once for each stream. Each call of the storage takes its lock for itself, so that a stream
-- runs in steps between which other streams run.
mod Tests
use klingdex.Prelude.{
  zero, suc, ℕ, ◌+◌, ◌<◌, String, Bool, true, false, ◌||◌, ◌&&◌, not, ◌≡◌, ◌≢◌, refl, sym, ◌∙◌, inl,
  inr, Option, none, some, Option-cases, List, [], ◌∷◌, ◌++◌, arith, ltb, if◌then◌else◌, str_eq,
  eq_iff, Bool-cases, All, All-append,
}
use mathlib.Core.List.{append-nil}
use klingdex.Tables.{update_where, any_where, any_where-update, storable}
use klingdex.Messages.Sequences.{update_remote_sequence}
use klingdex.Messages.Inbox.Once.{handle_stream_new, handle_stream_known}
use klingdex.Messages.Inbox.{
  InboxMessage, has_id, has_received_message, record_received_message, mark_message_processed,
  mark_ack_sent, SwapMessage, Received, Ack, success, unknown_type, ack_of, if_required,
  record_message, received_row, process_message, handle_stream,
}

-- What a stream does next.
pub data Stage : Type 0 where
  checking recording numbering handling marking acking finished : Stage

-- One step of a stream, and what it sends back. `outcome` is the handler of the message's type, if
-- there is one, and whether it succeeds.
unfoldable pub stream_step :
    Option Bool → ℕ → String → SwapMessage → Stage → Received → Stage × Received × List Ack
unfolding has_received_message record_received_message update_remote_sequence mark_message_processed
    mark_ack_sent
stream_step outcome now peer m checking s =
    if str_eq m.message_id ""
    then (handling, s, [])
    else (if has_received_message m.message_id s.inbox
        then (finished, s, success ∷ [])
        else (recording, s, []))
stream_step outcome now peer m recording s =
    (numbering, record s { inbox = record_received_message now (received_row peer m) s.inbox }, [])
stream_step outcome now peer m numbering s = (
  handling,
  record s {
    sequences =
        if ltb 0 m.sequence_num
        then update_remote_sequence now m.trade_id m.sequence_num s.sequences
        else s.sequences;
  },
  [],
)
stream_step none now peer m handling s = (finished, s, if_required m unknown_type)
stream_step (some ok') now peer m handling s = (
  if str_eq m.message_id "" then finished else marking,
  record s { handled = m.message_id ∷ s.handled },
  if_required m (ack_of ok'),
)
stream_step outcome now peer m marking s = (
  if m.requires_ack then acking else finished,
  record s { inbox = mark_message_processed now m.message_id s.inbox },
  [],
)
stream_step outcome now peer m acking s =
    (finished, record s { inbox = mark_ack_sent m.message_id s.inbox }, [])
stream_step outcome now peer m finished s = (finished, s, [])

-- A stream with no other one open, for `n` steps.
unfoldable pub stream_alone :
    ℕ → Option Bool → ℕ → String → SwapMessage → Stage → Received → Received × List Ack
stream_alone zero outcome now peer m stage s = (s, [])
stream_alone (suc n) outcome now peer m stage s =
    let (stage', s', acks) = stream_step outcome now peer m stage s in
    let (s'', later) = stream_alone n outcome now peer m stage' s' in (s'', acks ++ later)

-- An open stream.
pub record Stream : Type 0 where
  pub peer : String
  pub message : SwapMessage
  pub stage : Stage

pub record Node : Type 0 where
  pub streams : List Stream
  pub received : Received

-- A message comes on a new stream, or the stream with an index takes a step.
pub data Event : Type 0 where
  arrive : String → SwapMessage → Event
  run : ℕ → ℕ → Option Bool → Event

unfoldable pub step_at : ℕ → ℕ → Option Bool → List Stream → Received → List Stream × Received
unfolding stream_step
step_at k now outcome [] s = ([], s)
step_at zero now outcome (x ∷ xs) s =
    let (stage, s', acks) = stream_step outcome now x.peer x.message x.stage s in
    (record x { stage = stage } ∷ xs, s')
step_at (suc k) now outcome (x ∷ xs) s = let (xs', s') = step_at k now outcome xs s in (x ∷ xs', s')

unfoldable pub node_step : Event → Node → Node
unfolding step_at
node_step (arrive peer m) n = record n {
  streams = n.streams ++ (record { peer = peer; message = m; stage = checking } ∷ []);
}
node_step (run k now outcome) n =
    let (xs, s) = step_at k now outcome n.streams n.received in
    record { streams = xs; received = s }

unfoldable pub node_run : List Event → Node → Node
unfolding node_step
node_run [] n = n
node_run (e ∷ es) n = node_run es (node_step e n)

stream_step_new :
    (outcome : Option Bool) (now : ℕ) (peer : String) (m : SwapMessage) (s : Received)
    → str_eq m.message_id "" ≡ false
    → has_received_message m.message_id s.inbox ≡ false
    → stream_step outcome now peer m checking s ≡ (recording, s, [])
unfolding stream_step
stream_step_new outcome now peer m s named fresh = rw (named, fresh) refl

stream_alone_new :
    (o : Option Bool) (now : ℕ) (peer : String) (m : SwapMessage) (s : Received)
    → str_eq m.message_id "" ≡ false
    → has_received_message m.message_id s.inbox ≡ false
    → stream_alone 6 o now peer m checking s ≡ stream_alone 5 o now peer m recording s
unfolding stream_alone
stream_alone_new o now peer m s named fresh = rw (stream_step_new o now peer m s named fresh) refl

stream_alone_known :
    (o : Option Bool) (now : ℕ) (peer : String) (m : SwapMessage) (s : Received)
    → str_eq m.message_id "" ≡ false
    → has_received_message m.message_id s.inbox ≡ true
    → stream_alone 6 o now peer m checking s ≡ (s, success ∷ [])
unfolding stream_alone stream_step
stream_alone_known o now peer m s named known = rw (named, known) refl

stream_alone-processes :
    (o : Option Bool) (now : ℕ) (peer : String) (m : SwapMessage) (s : Received)
    → str_eq m.message_id "" ≡ false
    → stream_alone 5 o now peer m recording s
      ≡ process_message (λ x. o) now m (record_message now peer m s)
unfolding stream_alone stream_step process_message record_message
stream_alone-processes none now peer m s named = rw append-nil refl
stream_alone-processes (some b) now peer m s named = elim (Bool-cases m.requires_ack) [
  | inl wanted ↦ rw (named, wanted) refl
  | inr silent ↦ rw (named, silent) refl
]

stream_step_unnamed :
    (o : Option Bool) (now : ℕ) (peer : String) (m : SwapMessage) (s : Received)
    → str_eq m.message_id "" ≡ true
    → stream_step o now peer m checking s ≡ (handling, s, [])
unfolding stream_step
stream_step_unnamed o now peer m s unnamed = rw unnamed refl

handling_unnamed :
    (b : Bool) (now : ℕ) (peer : String) (m : SwapMessage) (s : Received)
    → str_eq m.message_id "" ≡ true
    → stream_step (some b) now peer m handling s
      ≡ (finished, record s { handled = m.message_id ∷ s.handled }, if_required m (ack_of b))
unfolding stream_step
handling_unnamed b now peer m s unnamed = rw unnamed refl

stream_alone_unnamed :
    (o : Option Bool) (now : ℕ) (peer : String) (m : SwapMessage) (s : Received)
    → str_eq m.message_id "" ≡ true
    → stream_alone 6 o now peer m checking s ≡ process_message (λ x. o) now m s
unfolding stream_alone
stream_alone_unnamed none now peer m s unnamed =
    rw (stream_step_unnamed none now peer m s unnamed)
      (unfold stream_step in unfold process_message in rw append-nil refl)
stream_alone_unnamed (some b) now peer m s unnamed =
    rw (stream_step_unnamed (some b) now peer m s unnamed, handling_unnamed b now peer m s unnamed)
      (unfold stream_step in unfold process_message in rw (append-nil, unnamed) refl)

handle_stream_unnamed :
    (o : Option Bool) (now : ℕ) (peer : String) (m : SwapMessage) (s : Received)
    → str_eq m.message_id "" ≡ true
    → handle_stream (λ x. o) now peer m s ≡ process_message (λ x. o) now m s
unfolding handle_stream
handle_stream_unnamed o now peer m s unnamed = rw unnamed refl

-- Alone, a stream is done after six steps, and has done what `handle_stream` does.
stream_alone-handles :
    (outcome : Option Bool) (now : ℕ) (peer : String) (m : SwapMessage) (s : Received)
    → stream_alone 6 outcome now peer m checking s ≡ handle_stream (λ x. outcome) now peer m s
stream_alone-handles o now peer m s = elim (Bool-cases (str_eq m.message_id "")) [
  | inl unnamed ↦
      stream_alone_unnamed o now peer m s unnamed
      ∙ sym (handle_stream_unnamed o now peer m s unnamed)
  | inr named ↦ elim (Bool-cases (has_received_message m.message_id s.inbox)) [
    | inl known ↦
        stream_alone_known o now peer m s named known
        ∙ sym (handle_stream_known o now peer m s named known)
    | inr fresh ↦
        stream_alone_new o now peer m s named fresh
        ∙ (stream_alone-processes o now peer m s named
            ∙ sym (handle_stream_new o now peer m s named fresh))
  ]
]

-- How often an id is in a list.
unfoldable pub occurs : String → List String → ℕ
occurs i [] = 0
occurs i (j ∷ js) = (if str_eq j i then 1 else 0) + occurs i js

-- Between its check and its handler.
abbrev pub is_underway : Stage → Bool
is_underway recording = true
is_underway numbering = true
is_underway handling = true
is_underway _ = false

-- A stream that is not about to handle a message with an id.
abbrev pub IsIdle : String → Stream → Type 0
IsIdle i x = (str_eq x.message.message_id i && is_underway x.stage) ≡ false

any_where-append_left :
    {A : Type 0} (q : A → Bool) (xs ys : List A)
    → any_where q xs ≡ true
    → any_where q (xs ++ ys) ≡ true
unfolding any_where
any_where-append_left q [] ys h = absurd cc
any_where-append_left q (x ∷ xs) ys h = ground (arith, any_where-append_left q xs ys)

record-keeps :
    (now : ℕ) (i : String) (m : InboxMessage) (rows : List InboxMessage)
    → has_received_message i rows ≡ true
    → has_received_message i (record_received_message now m rows) ≡ true
unfolding has_received_message record_received_message
record-keeps now i m rows h =
    elim (Bool-cases (any_where (has_id m.message_id) rows || not (storable m.sequence_num))) [
      | inl kept ↦ rw kept h
      | inr added ↦ rw added (any_where-append_left (has_id i) rows _ h)
    ]

mark-has :
    (i j : String) (f : InboxMessage → InboxMessage) (rows : List InboxMessage)
    → ((r : InboxMessage) → has_id i (f r) ≡ has_id i r)
    → has_received_message i rows ≡ true
    → has_received_message i (update_where (has_id j) f rows) ≡ true
unfolding has_received_message
mark-has i j f rows same got = any_where-update (has_id i) (has_id j) f rows same ∙ got

-- What a step keeps once a message was received.
abbrev Quiet : String → SwapMessage → Received → Stage × Received × List Ack → Type 0
Quiet i m s (stage, s', acks) =
    ((str_eq m.message_id i && is_underway stage) ≡ false)
    × (has_received_message i s'.inbox ≡ true)
    × (occurs i s'.handled ≡ occurs i s.handled)

stream_step-Quiet :
    (outcome : Option Bool) (now : ℕ) (i peer : String) (m : SwapMessage) (stage : Stage)
    (s : Received)
    → i ≢ ""
    → has_received_message i s.inbox ≡ true
    → (str_eq m.message_id i && is_underway stage) ≡ false
    → Quiet i m s (stream_step outcome now peer m stage s)
unfolding stream_step occurs mark_message_processed mark_ack_sent
stream_step-Quiet outcome now i peer m checking s real got h =
    elim (Bool-cases (str_eq m.message_id "")) [
      | inl unnamed ↦ rw unnamed (
        (elim (Bool-cases (str_eq m.message_id i)) [
          | inr other ↦ ground arith
          | inl same ↦
              absurd
                (real (sym ((eq_iff m.message_id i).0 same) ∙ (eq_iff m.message_id "").0 unnamed))
        ]),
        got,
        refl,
      )
      | inr named ↦ elim (Bool-cases (has_received_message m.message_id s.inbox)) [
        | inl known ↦ rw (named, known) (ground arith, got, refl)
        | inr fresh ↦
            rw (named, fresh)
              (
                (elim (Bool-cases (str_eq m.message_id i)) [
                  | inr other ↦ ground arith
                  | inl same ↦ let again = rw ((eq_iff m.message_id i).0 same) at fresh in absurd cc
                ]),
                got,
                refl,
              )
      ]
    ]
stream_step-Quiet outcome now i peer m recording s real got h =
    (h, record-keeps now i (received_row peer m) s.inbox got, refl)
stream_step-Quiet outcome now i peer m numbering s real got h = (h, got, refl)
stream_step-Quiet none now i peer m handling s real got h = (ground arith, got, refl)
stream_step-Quiet (some ok') now i peer m handling s real got h = (ground arith, got, ground arith)
stream_step-Quiet outcome now i peer m marking s real got h = (
  ground arith,
  mark-has i m.message_id (λ (r : InboxMessage). record r { processed_at = some now }) s.inbox
      (λ r. refl) got,
  refl,
)
stream_step-Quiet outcome now i peer m acking s real got h = (
  ground arith,
  mark-has i m.message_id (λ (r : InboxMessage). record r { ack_sent = true }) s.inbox (λ r. refl)
      got,
  refl,
)
stream_step-Quiet outcome now i peer m finished s real got h = (ground arith, got, refl)

step_at-Quiet :
    (i : String) (k now : ℕ) (outcome : Option Bool) (xs : List Stream) (s : Received)
    → i ≢ ""
    → has_received_message i s.inbox ≡ true
    → All (IsIdle i) xs
    → let after = step_at k now outcome xs s in
      All (IsIdle i) after.0
      × (has_received_message i after.1.inbox ≡ true)
      × (occurs i after.1.handled ≡ occurs i s.handled)
unfolding step_at
step_at-Quiet i k now outcome [] s real got h = (tt, got, refl)
step_at-Quiet i zero now outcome (x ∷ xs) s real got (h, hs) =
    let (idle, got', same) =
      stream_step-Quiet outcome now i x.peer x.message x.stage s real got h in
    ((idle, hs), got', same)
step_at-Quiet i (suc k) now outcome (x ∷ xs) s real got (h, hs) =
    let (idle, got', same) = step_at-Quiet i k now outcome xs s real got hs in
    ((h, idle), got', same)

-- Once the inbox has a message with an id that is not empty, and no open stream stands between the
-- check and the handler for that id, no further copy is passed to a handler and the inbox keeps the
-- id, whatever messages come and however the steps of the open streams alternate, as long as no row
-- of the inbox is deleted.
pub node_run-Once :
    (events : List Event) (n : Node) (i : String)
    → i ≢ ""
    → has_received_message i n.received.inbox ≡ true
    → All (IsIdle i) n.streams
    → (occurs i (node_run events n).received.handled ≡ occurs i n.received.handled)
      × (has_received_message i (node_run events n).received.inbox ≡ true)
unfolding node_run node_step
node_run-Once [] n i real got h = (refl, got)
node_run-Once (arrive peer m ∷ es) n i real got h =
    node_run-Once es (node_step (arrive peer m) n) i real got (
      All-append (IsIdle i) n.streams (record { peer = peer; message = m; stage = checking } ∷ []) h
        (ground arith, tt))
node_run-Once (run k now outcome ∷ es) n i real got h =
    let (idle, got', same) = step_at-Quiet i k now outcome n.streams n.received real got h in
    let (rest, got'') = node_run-Once es (node_step (run k now outcome) n) i real got' idle in
    (rest ∙ same, got'')

-- The steps of two streams whose checks both come before their records.
abbrev pub race : ℕ → Option Bool → List Event
race now outcome =
    run 0 now outcome
    ∷ run 1 now outcome
    ∷ run 0 now outcome
    ∷ run 1 now outcome
    ∷ run 0 now outcome
    ∷ run 1 now outcome
    ∷ run 0 now outcome
    ∷ run 1 now outcome
    ∷ []

abbrev two_streams : String → String → SwapMessage → Stage → Stage → Received → Node
two_streams peer other m a b s = record {
  streams =
      record { peer = peer; message = m; stage = a }
      ∷ record { peer = other; message = m; stage = b }
      ∷ [];
  received = s;
}
