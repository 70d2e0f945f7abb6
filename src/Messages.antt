-- ===== src/Messages.antt =====
-- Delivery of swap messages: the tables of internal/storage/message_queue.go, and the retries of
-- internal/node/message_sender.go and retry_worker.go.
pub mod Outbox
pub mod Sequences
pub mod Inbox
pub mod Retry
