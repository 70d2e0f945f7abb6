-- ===== src/Lib.antt =====
-- A model of klingdex, a peer-to-peer exchange for atomic swaps, and proofs about it. Paths are from
-- the repository's root.
--
-- Prelude: what the other modules share: native numbers, lists, tests, results, tables keyed by text.
-- Helpers: pkg/helpers, bytes, padding and amounts.
-- Chain: internal/chain, the registry `get` and its parameters.
-- Config: internal/config/config.go. Timeouts, Fees, Coins and DaoAddresses are its tables and the
--   functions on them (`get_chain_timeout`, `calculate_fee`, `get_coin` and so on).
-- Utxos: the insertion sort and the greedy loop that internal/swap/tx.go, internal/wallet/tx.go and
--   internal/wallet/multi_address_tx.go each write out, once, over any type of output.
-- Swap: internal/swap. Types, State, Offer, Heights and Confirmations are swap.go: the record `Swap`,
--   `TransitionTo`, `Validate`, `NewSwap`, block heights and confirmations. HtlcScript is
--   htlc_script.go and HtlcSession htlc.go: a session builds its script with HtlcScript and finds its
--   chain with Chain. Musig2 is the nonces and signatures of musig2.go, with the sessions' addresses in
--   Musig2.Address. Funding is the funding transaction of tx.go, Spending its claim and refund
--   transactions, and Spending.Balance what they pay out. Timelocks and Taproot are
--   script.go, Bech32 the encoding of addresses in musig2.go. Secrets is the keys and the secret of a
--   swap in swap.go.
-- Swap.Coordinator: internal/swap/coordinator*.go, the active swaps of a node and the handlers on
--   them. Start, Keys, Signing, Tracking, Secrets and HtlcSpend are the handlers, named for what
--   they do; Refund and Timeouts are coordinator_timeout.go: a refund, and the monitor that starts
--   it. Frame, Lifecycle, NonceSafety, Agreement, HashMismatch and ClaimState are about them. A
--   handler is a function from an `ActiveSwap` to a `Reply`: the swap that it leaves, the events
--   that it emits and its result. `with_swap` runs one on the swap of a trade. The answers of the
--   backends are an argument, a function from a chain's symbol.
-- Wallet: internal/wallet. Single is tx.go, Multi and SendMax are multi_address_tx.go. Reserve and
--   Scan are utxo_sync.go: the outputs that a transaction reserves, and the scan of the addresses.
-- Tables: what SQL statements say, over a table of any type of row.
-- Storage: internal/storage. Utxos and Addresses are wallet_utxos.go, Orders, Trades, Swaps, SwapLegs
--   and Secrets the files of these names.
-- Sync: internal/sync/ordersync.go. Trades and Orders are the two services, each with what it makes
--   of the tables of Storage in Merge, and Settled.
-- Messages: Outbox, Sequences and Inbox are internal/storage/message_queue.go, Retry the decisions of
--   internal/node/message_sender.go and retry_worker.go. Inbox has `handleStream` of
--   internal/node/stream_handler.go as well, and Inbox.Streams its steps on streams that are open at
--   once.
--
-- A pure function is a function by clauses, a method a function from the state to the state that it
-- leaves and its result or error. Unsigned numbers of w bits are natural numbers, and each sum,
-- difference and product that may wrap is taken modulo 2 ^ w. An order, a trade, a swap, a leg or a
-- received message with a uint64 from 2 ^ 63 on is not stored, since `database/sql` refuses the
-- number; amounts of outputs are taken to be below. A mutex is left out: each method runs alone.
-- Only the streams of handleStream, which run at once, are taken apart into steps
-- (Messages.Inbox.Streams), and `handle_stream` is one that runs alone. Clocks and random bytes are
-- arguments. Loops are structural recursion on a list or on the number of rounds. The scan of
-- addresses alone runs on fuel: it ends within the gap limit after the last used address, which is
-- proved with it.
--
-- Third-party code is an interface or an argument: btcd's txscript (Swap.Txscript, with an instance in
-- Swap.Txscript.Plain), keys, hashes and addresses (Swap.Crypto, with an instance in
-- Swap.Crypto.Constant), musig2 (Swap.Musig2Lib, with an instance in Swap.Musig2Lib.Constant) and
-- transactions (`TxLib` in Swap.Spending). SQLite is not an interface: each statement is a
-- function of Tables on the list of a table's rows.
--
-- Not modelled: of the coordinator the copies in the database and the recovery from them, the search
-- for a secret in a transaction and the sending of funding transactions; EVM and cross-chain swaps and
-- their contract, cooperative spending transactions, the fresh scan of the wallet, which are still
-- to be done; the table of peers, monitors, wallet keys, the network node, the RPC server, the
-- backends and the daemon, which are input and output around the parts above.
pub mod Prelude
pub mod Helpers
pub mod Chain
pub mod Config
pub mod Tables
pub mod Storage
pub mod Utxos
pub mod Swap
pub mod Sync
pub mod Wallet
pub mod Messages
