-- ===== src/Lib.antt =====
-- Verification of rust_uma, a service that reads the events of Polymarket's optimistic oracle (UMA)
-- from the chain and from the mempool, numbers them, and broadcasts them as frames to clients over
-- WebSocket, directly and through edge nodes.
--
-- The parts and how they interact. The pipeline takes each decoded event that is new into a ring of
-- events in memory, numbered and with its market from a catalog. An event with a market that no
-- list of forfeited matches holds back goes on, in a batch, into a ring of encoded frames, from
-- which a client that reconnects resumes at its cursor. An edge node reads the frames of the
-- broadcaster, keeps the last of them in its own ring with offsets of its own, and fans each one
-- out to its clients without waiting for any of them; a client first gets the replay that it asked
-- for and then everything new. Beside this, the mempool node decodes pending calls and passes them
-- through a gate, which is to let each expected outcome through once and as early as it is safe;
-- the calls that the chain confirms come back to the gate. A console keeps the tokens of the
-- clients; an edge node fetches them with its heartbeats and checks clients by them. The console
-- also keeps the registry of the edge nodes: it answers each heartbeat with the clients that the
-- node is to release, and lists the nodes for clients to choose from.
--
-- Which file models which part:
--   Model         src/model.rs, src/uma/events/common.rs: decoded events, their keys (`EventKey`),
--                 the outcome a price stands for, and the numbered records
--   Hub/Events    src/hub.rs, `EventHub`: `new`, `insert` (`insert_locked` is its part under the lock, `admit`
--                 what that does with a new key, `evict` the removal of the oldest event, `announce`
--                 the sending of the sequence), `snapshot`, `bounds`, `latest_sequence`,
--                 `contains` (`has_key`)
--   Hub/Frames    src/hub.rs, `FrameHub`: `new`, `resuming_after`, `publish` with its `evict`, `after`
--   Edge/Ring     src/edge/ring.rs: `push`, `tail`, `last_event_sequence`, `stats`
--   Edge/Channel  the bounded channel of tokio between the hub and one client
--   Edge/Hub      src/edge/hub.rs: `publish` (`fan_out` is its loop, `place` its body), `subscribe`,
--                 `unsubscribe`, `release`, `kick_tokens`, `clients`, `ring_stats`; Edge/Hub/Actions
--                 adds what the clients do with their ends of the channels
--   Edge/Auth     src/edge/auth.rs: `new`, `replace`, `check`, `is_live`
--   Edge/Heartbeat  src/edge/heartbeat.rs, the part of `apply` that is about tokens (`apply_tokens`),
--                 and the tokens of the answer in src/console/server.rs (`directive_tokens`)
--   Edge/Drain    src/edge/server.rs: `start_drain` and `cancel_drain`, one step for each access to a
--                 flag (`Move`), and the spawned task
--   Edge/Parse    src/edge/frame.rs: `parse_frame`, `walk_batch`, `walk_event` and the cursor
--                 (Edge/Parse/Varint and Edge/Parse/Encoded describe what protobuf writes)
--   Console/Tokens  src/console/tokens.rs and src/console/store.rs: `open` (`open_store`), `create`,
--                 `set_enabled`, `rename`, `delete` over `mutate`, `grants`; `save_json`, `load_json`
--   Console/Registry  src/console/registry.rs: nodes, their status and `balance_excess`; in
--                 Console/Registry/Calls `open` (`open_registry`), `heartbeat` with `decide_release`,
--                 `request_release`, the setters and `forget`; in Console/Registry/Listing
--                 `public_list`
--   Console/Alerts  src/console/alerts.rs: `push`, `increase` and `last_at` of `Series`, and `counter`
--   Forfeit       src/forfeit.rs: the list of forfeited matches; `lookup` (`lookup_match`),
--                 `blocked_before`; in Forfeit/Feed `apply` (`apply_state` and `apply_index` are its parts
--                 under the two locks), `prune` (`prune_state` and `stored` are its parts), `build_index`,
--                 `record_blocked`; in Forfeit/Saved the interleavings of these, `snapshot_bytes` (`snapshot`), `load`, `from_config`
--   Enrichment    src/enrichment.rs, `Catalog`: `new`, `upsert`, `get`, `get_by_market_id`, `resolve`
--   Pipeline/Processor  src/pipeline.rs, `process` in four parts (`look`, `number`, `accept`,
--                 `broadcast`), `checkpoint`, and the counters of src/stats.rs that they write
--   Pipeline/Batcher  src/pipeline.rs, `run_batcher`: `take_more` is its inner loop
--   Mempool/Call  src/mempool/calldata.rs: a decoded call and the key of its request
--   Mempool/Calldata  src/mempool/calldata.rs: `decode_input` and `decode_one` with what they call
--                 (`decode_items` is the loop of a multicall)
--   Mempool/Arith the floating-point operations of the gate
--   Mempool/Gate  src/mempool/gate.rs: `check` with its two branches `judge_propose` and
--                 `judge_dispute`, `on_confirmed` (`settle` is its part on the request), `prune`,
--                 `tip_floor`, `trusted`
--   Prelude       shared: lists and windows over them, maps and sets as lists, 64-bit sums, tests
-- A child module beside these holds the proofs about its parent, and Examples the tests.
--
-- How state corresponds. A struct is a record, and a method is a function from the record to the
-- next one. Where a mutex or a read-write lock is held for the whole of a method, the method is one
-- step, and what threads do is a sequence of steps. Where threads share atomic flags (Edge/Drain),
-- each access is a step, and any interleaving a sequence of them; the calls of `process` interleave
-- in its four parts. `EventHub::insert` and `FrameHub::publish` drop the lock before they send the
-- newest sequence: for the first, the part under the lock and the sending are two steps of any
-- interleaving (`Step` of Hub/Events), and `insert` is both at once, as the pipeline uses it, where
-- nobody reads what is sent; for the second, only the task of the batcher publishes. `apply` and
-- `prune` of the list of forfeited matches take the lock of the state and then that of the index:
-- each is two steps of its task (`Tasks` and `Step` of Forfeit/Saved), and the theorems on the index
-- say which orders of these they need (`AllApart`); a test shows what happens in another one. A `VecDeque` is a list, the
-- oldest item first. A `HashMap` is an association list and a `HashSet` a list of keys; the order
-- in which the source iterates over a map is not specified, here it is the list's. A `BTreeMap` is
-- a list in the order of its keys. A `tokio::sync::watch` channel is the last value sent. Time is
-- an argument, where the source takes it as an argument or reads a clock.
--
-- Bounds. Offsets, sequences, client ids and counters that the source adds to are `u64` and wrap at
-- 2 ^ 64, as in a release build; a theorem that needs a number not to wrap says so in a hypothesis.
-- The walks of Edge/Parse take fuel, the length of what they read, which is enough since each turn
-- takes a byte; `batches` of Pipeline/Batcher takes as many turns as events wait, which is proved
-- enough; every other loop runs over a list or a count.
--
-- Outside the sources, and parameters here: the channels of tokio (the record `Mpsc`, with the
-- behaviour that its documentation states), the JSON library and the trimming of names (the record
-- `Text`, where what is written can be read back), random numbers and the time, the decompression
-- of a frame (an argument of `parse_frame`), the protobuf length of an event and `encode_frame`
-- (arguments of the batcher), what `decode_signal_log` makes of a log (an argument of `look`),
-- whether a channel has room, the `hex` library (the record `Hex`, where what is written can be
-- read back), the floor of an `f64` ceiling (`over`) and the random order of a list (`Shuffle`) of
-- the registry, and the `f64` arithmetic of the gate (the record `Floats`, operations without laws,
-- so that what is proved holds for every rounding).
--
-- Not modelled: sockets, HTTP, files but those of the tokens and of the forfeited matches, logging
-- and process wiring, which only do input and output; the protobuf and zstd libraries; the lists of
-- clients for the console (`client_list`, `clients_by_token`) and its masked list of tokens; what a
-- heartbeat does beside the tokens; the rules and conditions of the alerts; the registry's lists
-- for the panel (`admin_list`, `counts`) and the view of the forfeited matches; a broadcast after
-- the batcher has stopped, which is an error that is logged; the messages of the feed, which come
-- as records; which clients a drain releases in each turn; `synth_log` of src/mempool/calldata.rs;
-- and, of src/mempool/gate.rs, the file with the statistics of addresses.
pub mod Prelude
pub mod Model
pub mod Hub
pub mod Edge
pub mod Mempool
pub mod Console
pub mod Forfeit
pub mod Enrichment
pub mod Pipeline
