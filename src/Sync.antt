-- ===== src/Sync.antt =====
-- internal/sync/ordersync.go: what a node answers to another that syncs with it, and what it makes
-- of an answer. Streams, their JSON and the peers that are connected are left out; the limit of a
-- request is not negative.
pub mod Trades
pub mod Orders
use klingdex.Prelude.{
  ℕ, ◌+◌, ◌-◌, Bool, true, false, ◌||◌, not, Option, none, some, ltb, ◌==◌, if◌then◌else◌,
}

abbrev pub max_orders_per_sync : ℕ
max_orders_per_sync = 100

-- Five minutes, in seconds.
abbrev sync_cooldown : ℕ
sync_cooldown = 300

-- The test of `onPeerConnected`, on the time of the last sync with the peer.
unfoldable pub may_sync : ℕ → Option ℕ → Bool
may_sync now none = true
may_sync now (some last) = not (ltb (now - last) sync_cooldown)

unfoldable pub sync_limit : ℕ → ℕ
sync_limit limit =
    if limit == 0 || ltb max_orders_per_sync limit then max_orders_per_sync else limit
