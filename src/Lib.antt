-- ===== src/Lib.antt =====
-- The core of p2p-transmission: rooms in which an owner admits receivers, and the protocol by which
-- two browsers send files to each other over a data channel. The server keeps the rooms: it loads a
-- room from its snapshots, applies a command and stores it, and its connection hub passes messages
-- between the WebSockets of a room. The browsers follow the room by its revisions, negotiate a
-- connection for each peer, plan a transfer in chunks and segments, agree on it by control messages,
-- and send the bytes in binary frames.
--
-- Files, with the code that each is about (paths from the repository's root):
--   Prelude     numbers, lists, texts and results that the others share: checked arithmetic of u64,
--               strings as lists of code points, `Result` with its `?`
--   OrdMap      `BTreeMap` and `HashMap` as a sorted association list, over an instance of an order
--   Domain      rust/crates/domain: Domain/Time for time.rs, Domain/Ids for ids.rs, Domain/Session
--               for session.rs, and Domain/Room for room.rs. In Domain/Room, State has the types,
--               Commands the commands (`request_join` of the source is `do_request_join` and so on,
--               `handle` is `Room::handle`), Restore the snapshots, `restore` and
--               `verify_invariants`; Effect has the abstract specification, a relation of
--               transitions; the other modules are proofs
--   Transfer    rust/crates/transfer/src/lib.rs: chunk and segment plans; proofs in Transfer/Pieces
--               and Transfer/Cover
--   Protocol    rust/crates/protocol: Limits for limits.rs, Version for version.rs, Frame for the
--               binary frames of data_channel.rs and Control for its control messages, Realtime for
--               realtime.rs, Http for http.rs; Bytes has the big-endian conversions of the standard
--               library
--   Rtc         rust/crates/browser-platform/src/rtc: Checkpoint for the prefixes and manifests of
--               checkpoint.rs, Checkpoint/Live for its `match_live_resume`, BinaryId for the binary ids
--               of manifest.rs and Manifest for its offers and plans, Wire for the chunks of wire.rs, Finalization for finalization.rs and
--               the retries of browser/incoming.rs that use it; the other modules are proofs
--   Server      rust/apps/server/src: RateLimit for rate_limit.rs, its modules Window and Memory are
--               proofs; Hub for realtime/hub.rs: Hub/State has the tables, Hub/Mappings the changes
--               that operations share, Hub/Operations and Hub/Sending the operations,
--               Hub/Invariant the invariant and Hub/Reachable the runs; its other modules are proofs;
--               Storage for storage/codec.rs, Storage/Rows and Storage/Sessions for the rows of a room and
--               of a session in storage/mod.rs, Storage/Database for the checks of migrations and the errors
--               of a write; Storage/Writing and Storage/RoundTrip are proofs
--   Web         rust/apps/web/src: State and Model for app_state.rs, App for app_transition.rs; Work,
--               Aggregate, Rtc and Connection for rtc_transition.rs, Retry for the owner's attempts of
--               rtc_orchestration.rs; Events,
--               Progress, Planning, Texts and Handling for rtc_transfer_events and its modules;
--               Reducer and Snapshots for realtime_event_reducer.rs, Target for realtime_target.rs,
--               Session, Effects and Waiting for realtime_session.rs: the gate of revisions, the effects and
--               the end of a wait; Stays has the steps of a client; Attempts, Tokens, Advance, Kept, Mirror,
--               Bounds and Received are proofs
--   Tests       runs on concrete values and instances of the results
--
-- A method on `&mut self` is a function that returns the new state beside the result; on an error path
-- too it returns the state that the code leaves. A machine integer is a natural number; the checked
-- operations of the source test the bound of their width, and a wrapping one takes the remainder. An
-- element of a `BTreeSet` or `HashSet` is a key of a map to the unit type. Recursion is structural
-- everywhere but in two loops that run on fuel: the owner's attempts of Web/Retry, where five units are
-- enough, since the table of delays has four entries, and the retries of Rtc/Finalization, where three
-- are. A panic of the client is the value none.
--
-- Parameters: the parser of serde_json; the answers of tokio's bounded queues and the order in which a
-- hash set is walked, in the hub; what SQLite answers to a statement whose row fits its table, in the
-- storage; the answers of the browser, what other tasks do to the model while one sleeps, what the peers
-- and the socket do to the model in a step, and the decimal digits of a number, in the client. The hub's
-- identifiers are random UUIDs in the source; a run assumes that a new one is not in use.
--
-- Not modelled: the services, sockets and HTTP handlers of the server, the other statements of its storage
-- with the rows of invites, the browser's interfaces, and the views, which call libraries for input,
-- output and rendering; of realtime_session.rs attachments without a snapshot and the hold of avatars, and
-- of rtc_orchestration.rs the two one-shot timers.
pub mod Prelude
pub mod OrdMap
pub mod Domain
pub mod Transfer
pub mod Protocol
pub mod Rtc
pub mod Server
pub mod Web
pub mod Tests
