-- ===== src/Lib.antt =====
-- A model of kerux, a Matrix homeserver, and of what makes its parts correct. The definitions
-- translate the Rust code; paths are from the repository's root.
--
-- The program. Clients reach the handlers of src/client_api/, which read a token, and then read or
-- change the storage. Events come in through `add_event` (src/util/storage.rs): it asks the storage
-- for the heads of the room's graph of events, asks the state resolver (src/state/mod.rs) for the
-- room's state after them, picks the auth events from that state, hashes the event
-- (src/events/room_version/v4.rs), has it checked (src/validate/auth.rs), and stores it with the
-- outcome of the check. The resolver reads the storage, and runs the check itself where it has to
-- resolve a conflict.
--
-- The parts and their files.
--   Prelude: shared names; Prelude/Tests, Equality, Lists, Maps and Ints have Boolean tests,
--     `PartialEq`, vectors, hash maps and `i64`.
--   Errors: src/error.rs. `Outcome` is the result of fallible code: a value, an error, a panic, or
--     a loop whose rounds are used up (`running`); Errors/Conversions has the errors of other
--     crates. Exec: async methods as functions from a state to an outcome and a state; what was
--     written before an error stays written.
--   Mxid: src/util/mxid.rs, with the string operations that it uses in Mxid/Text.
--   Events: src/events/. Room has the contents, Levels the methods of `PowerLevels`, Content the
--     enum `EventContent`, Serialized and MembershipText how contents and memberships are written
--     and read, Pdu the PDUs and their redaction.
--   Storage: src/storage/. Query has `EventQuery::matches`; Mem the in-memory backend, in Accounts
--     (users, tokens, transactions, batches), Rooms (events and queries) and Ephemeral (typing);
--     Sled the backend on a sled database, with the same division and Rooms/Queries for queries;
--     Sled/Values says what its trees promise, Sled/Agreement when a database and the memory hold
--     the same, and Sled/Fixture has a database to try the theorems at. Reader has the methods of
--     `Storage` that others define, over a record of the two operations that the readers of a
--     storage use, which `mem_reader` fills.
--   State: src/state/mod.rs. `State` in the parent; State/Resolver has the auth checks in sequence,
--     Resolver/Graph what follows the auth events, Resolver/Resolve `resolve_v2` and its cache. The
--     auth chain of an event is a relation in Resolver/Chains, and Resolver/Enough has the rounds
--     that it takes to collect it.
--   Validate: src/validate/auth.rs, one function for each rule, with the early returns as branches;
--     Validate/Changes has the tests on a change of power levels, and Auth/Joins says who may join.
--   Util: src/util/storage.rs. Util/Sender, Util/NewEvent, Util/AddEvent and Util/TestUsers.
--   ClientApi: src/client_api/. Session, Profile, Room, RoomEvents and Sync have the handlers;
--     Sync/Waiting has `sync` itself, and Session/Token the token of a request. Session/SignUp
--     follows a registration to a login, and Joining a join to the membership; Reading joins the
--     handlers that read a room, and Refusal all that come with a token; Sent and ReadBack follow a
--     message from the handler that adds it to those that show it.
--   Sign and ServerApi: src/sign.rs and src/server_api/, signed requests to other servers.
--   Fixtures: a small room, at which the modules named Tests try the theorems.
--
-- What is given. Serde and serde_json (`Serde`), canonical JSON and SHA-256 (`Hashing`), Argon2
-- (`Argon`), sled and bincode (`Sled`), ring with base64 (`Ring`), the parsing of UUIDs, and the
-- regular expression for server names are parameters; what sled and bincode promise while no call
-- fails is in records of laws (`IsTree`, `IsCodec`, `IsOrders`, `IsRange`). Of the three types that
-- `IsCodec` is asked of, users have account data in JSON, which bincode cannot read back; no call
-- that is modelled writes any. Of events it is not asked, since bincode refuses their format: a
-- call that adds one to the database may fail. Canonical JSON may refuse an event that is being
-- built; of a built PDU, which has passed it, it always has a text, so that `event_id` has no
-- panic. Random numbers and readings of the clock are arguments. A handler runs to its end without
-- others in between, except that one that waits (`sync`) goes on in a storage that others have
-- changed.
--
-- Rounds. The resolver's recursion and loops run on a number of rounds, and give `running` when it
-- is used up. For a linear history, more rounds than the history has events are enough, and the
-- theorem on it says so. For the auth difference, more rounds than there are events to meet are
-- enough. The loop that numbers an event in the database runs on rounds too: it goes round for as
-- long as the room's order has no event, which no number of rounds changes. A text is trimmed as
-- often as it has characters, which is enough. Hash maps and sets are lists; their order stands for
-- the unspecified order in which Rust iterates.
--
-- Not modelled: the postgres backend, whose logic is in SQL and which the build leaves out, sled's
-- transactions, which nothing calls, routes and start-up, printing and tracing, and `get_3pids`,
-- which answers an empty list to whoever asks and does not check the token. Machine integers other
-- than event depths (`i64`) and the numbers of events in the database (`u32`) are natural numbers:
-- the code compares power levels (`u32`) and never adds them, and indices (`usize`) stay below the
-- lengths of lists in memory. Where the number of an event in the database overflows, the model
-- panics, as a debug build does; a release build wraps around.
pub mod Prelude
pub mod Errors
pub mod Exec
pub mod Mxid
pub mod Events
pub mod Storage
pub mod State
pub mod Validate
pub mod Util
pub mod ClientApi
pub mod Sign
pub mod ServerApi
pub mod Fixtures
