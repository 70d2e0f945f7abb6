-- ===== src/Messages/Outbox/Delivery.antt =====
-- What the statements on the outbox keep, and which messages are due.
mod Tests
use klingdex.Prelude.{
  ℕ, zero, suc, ◌+◌, ◌≤◌, ◌<◌, String, Bool, true, false, ◌&&◌, ◌||◌, not, ◌≡◌, refl, sym, ap,
  Option, none, some, List, [], ◌∷◌, ◌++◌, arith, ltb, leb, if◌then◌else◌, length, take, str_eq,
  eq_iff, All, inl, inr, Bool-cases,
}
use klingdex.Messages.Outbox.{
  Outbox, OutboxMessage, OutboxStatus, is_open, has_id, contains_id, queued, enqueue_message,
  is_due, is_expiring, get_pending_messages, mark_message_sent, mark_message_acked,
  mark_message_failed, mark_message_expired, schedule_retry, expire_old_messages,
  cleanup_old_messages,
}
use klingdex.Tables.{update_where, filter_where, any_where, order_with, ascending}
use klingdex.Tables.Unique.{Unique, Unique-update, Unique-filter, Unique-snoc}
use klingdex.Tables.Order.{All-filter, All-order, All-take, length-take_le}

abbrev pub same_id : OutboxMessage → OutboxMessage → Bool
same_id a b = has_id a.message_id b

abbrev pub DistinctIds : Outbox → Type 0
DistinctIds out = Unique same_id out

-- The changes of the table.
pub data Statement : Type 0 where
  enqueue : OutboxMessage → Statement
  sent acked expired : String → Statement
  failed : String → String → Statement
  retry : String → ℕ → Statement
  expire_old : ℕ → Statement
  cleanup : ℕ → Statement

kept_or : Option Outbox → Outbox → Outbox
kept_or none out = out
kept_or (some out') out = out'

-- A statement at a time of the clock; a row that the constraint refuses leaves the table alone.
unfoldable pub execute : ℕ → Statement → Outbox → Outbox
unfolding kept_or enqueue_message mark_message_sent mark_message_acked mark_message_failed
    mark_message_expired schedule_retry expire_old_messages cleanup_old_messages
execute now (enqueue m) out = kept_or (enqueue_message now m out) out
execute now (sent i) out = mark_message_sent now i out
execute now (acked i) out = mark_message_acked now i out
execute now (expired i) out = mark_message_expired i out
execute now (failed i reason) out = mark_message_failed i reason out
execute now (retry i at) out = schedule_retry i at out
execute now (expire_old buffer) out = expire_old_messages now buffer out
execute now (cleanup older) out = (cleanup_old_messages older out).0

unfoldable pub execute_all : List (ℕ × Statement) → Outbox → Outbox
unfolding execute
execute_all [] out = out
execute_all ((now, s) ∷ rest) out = execute_all rest (execute now s out)

same_id_comm : (a b : OutboxMessage) → same_id a b ≡ same_id b a
same_id_comm a b =
    ground (arith, eq_iff a.message_id b.message_id, eq_iff b.message_id a.message_id)

enqueue-DistinctIds :
    (now : ℕ) (m : OutboxMessage) (out : Outbox)
    → DistinctIds out
    → DistinctIds (kept_or (enqueue_message now m out) out)
unfolding kept_or enqueue_message
enqueue-DistinctIds now m out d = elim (Bool-cases (contains_id m.message_id out)) [
  | inl taken ↦ rw taken d
  | inr fresh ↦ rw fresh (Unique-snoc same_id out (queued now m) same_id_comm fresh d)
]

execute-DistinctIds :
    (now : ℕ) (s : Statement) (out : Outbox) → DistinctIds out → DistinctIds (execute now s out)
unfolding execute
execute-DistinctIds now (enqueue m) out d = enqueue-DistinctIds now m out d
execute-DistinctIds now (sent i) out d = Unique-update same_id _ _ out (λ a b. refl) (λ a b. refl) d
execute-DistinctIds now (acked i) out d =
    Unique-update same_id _ _ out (λ a b. refl) (λ a b. refl) d
execute-DistinctIds now (expired i) out d =
    Unique-update same_id _ _ out (λ a b. refl) (λ a b. refl) d
execute-DistinctIds now (failed i reason) out d =
    Unique-update same_id _ _ out (λ a b. refl) (λ a b. refl) d
execute-DistinctIds now (retry i at) out d =
    Unique-update same_id _ _ out (λ a b. refl) (λ a b. refl) d
execute-DistinctIds now (expire_old b) out d =
    Unique-update same_id _ _ out (λ a b. refl) (λ a b. refl) d
execute-DistinctIds now (cleanup older) out d = Unique-filter same_id _ out d

-- No sequence of statements gives two rows the same message id.
pub execute_all-DistinctIds :
    (xs : List (ℕ × Statement)) (out : Outbox) → DistinctIds out → DistinctIds (execute_all xs out)
unfolding execute_all
execute_all-DistinctIds [] out d = d
execute_all-DistinctIds ((now, s) ∷ rest) out d =
    execute_all-DistinctIds rest (execute now s out) (execute-DistinctIds now s out d)

-- What a due row satisfies.
abbrev pub IsTimely : ℕ → ℕ → OutboxMessage → Type 0
IsTimely now buffer m =
    (is_open m.status ≡ true) × (m.next_retry_at ≤ now) × (now + buffer < m.swap_timeout)

expire-IsTimely :
    (now buffer : ℕ) (out : Outbox)
    → All (λ m. is_due now m ≡ true → IsTimely now buffer m) (expire_old_messages now buffer out)
unfolding expire_old_messages update_where
expire-IsTimely now buffer [] = tt
expire-IsTimely now buffer (m ∷ ms) =
    let rest = expire-IsTimely now buffer ms in
    elim (Bool-cases (is_expiring (now + buffer) m)) [
      | inl old ↦ rw old ((λ h. absurd (cc h)), rest)
      | inr young ↦ rw young ((λ h. ground arith), rest)
    ]

-- One round of the retry worker first expires old messages and then reads those that are due: it
-- reads at most 100, and each is open, due, and belongs to a swap that lasts longer than the
-- buffer from now.
pub get_pending-IsTimely :
    (now buffer : ℕ) (out : Outbox)
    → let batch = get_pending_messages now (expire_old_messages now buffer out) in
      All (IsTimely now buffer) batch × (length batch ≤ 100)
unfolding get_pending_messages
get_pending-IsTimely now buffer out =
    let due = filter_where (is_due now) (expire_old_messages now buffer out) in
    (
      All-take (IsTimely now buffer) 100 (order_with (ascending (λ m. m.next_retry_at)) due) (
          All-order (IsTimely now buffer) (ascending (λ m. m.next_retry_at)) due (
            All-filter (IsTimely now buffer) (is_due now) (expire_old_messages now buffer out)
              (expire-IsTimely now buffer out))),
      length-take_le 100 (order_with (ascending (λ m. m.next_retry_at)) due),
    )

cleanup-due :
    (now older : ℕ) (out : Outbox)
    → filter_where (is_due now) (cleanup_old_messages older out).0 ≡ filter_where (is_due now) out
unfolding cleanup_old_messages filter_where
cleanup-due now older [] = refl
cleanup-due now older (m ∷ ms) = ground (arith, cleanup-due now older ms)

cleanup-count :
    (older : ℕ) (out : Outbox)
    → length (cleanup_old_messages older out).0 + (cleanup_old_messages older out).1 ≡ length out
unfolding cleanup_old_messages filter_where
cleanup-count older [] = refl
cleanup-count older (m ∷ ms) = ground (arith, cleanup-count older ms)

-- The cleanup deletes no message that is to be delivered: at every time the same messages are
-- read as due before and after it. The number that it returns is that of the deleted rows.
pub cleanup_old_messages-keeps :
    (now older : ℕ) (out : Outbox)
    → (get_pending_messages now (cleanup_old_messages older out).0 ≡ get_pending_messages now out)
      × (length (cleanup_old_messages older out).0 + (cleanup_old_messages older out).1
          ≡ length out)
unfolding get_pending_messages
cleanup_old_messages-keeps now older out =
    (rw (cleanup-due now older out) refl, cleanup-count older out)

-- A retry that is scheduled after the acknowledgement of a message opens its row again, so the
-- message is delivered once more: the rows with its id are all due from the time of the retry on.
pub schedule_retry-reopens :
    (i : String) (now at : ℕ) (out : Outbox)
    → length (
        filter_where
          (λ m. has_id i m && is_due at m)
          (schedule_retry i at (mark_message_acked now i out)))
      ≡ length (filter_where (has_id i) out)
unfolding schedule_retry mark_message_acked update_where filter_where
schedule_retry-reopens i now at [] = refl
schedule_retry-reopens i now at (m ∷ ms) = ground (arith, schedule_retry-reopens i now at ms)
