-- ===== src/Lib.antt =====
-- A model of the durable core of silicon-omni (crates/omni-core), which keeps conversations that
-- move between providers, and of how it chooses the provider.
--
-- Parts, and where they stand:
--   Json      the JSON values that the crates share (serde_json::Value), with the laws of maps
--   Events    crates/omni-core/src/events.rs: events, their JSON form (Serial) and the sorting of
--             error texts (Classify)
--   Jsonl     crates/omni-core/src/shared/jsonl.rs: reading (Read), the backward search for a torn
--             tail (Tail), repairing and appending (Write)
--   Store     crates/omni-core/src/session/store.rs: the log of a session, over Jsonl and Events
--   Meta      crates/omni-core/src/session/meta.rs: the metadata of a session and its queue of
--             accepted messages (Load is the loader and its checks)
--   Translate crates/omni-core/src/translate.rs: history as text for another provider
--   Choose    crates/omni-core/src/choose.rs: picks and questions (Asking), addresses (Url), the
--             cache (Cache) and `resolve`
--   Daemon    crates/omni-daemon/src/wiring.rs: connections and listeners (Wiring);
--             crates/omni-daemon/src/registry.rs: one open session, reaping (Live)
--   Runner    crates/omni-core/src/providers/base.rs: what the conductor asks of a provider
--   Chat      crates/omni-core/src/chat.rs: the conductor of a session. Recording is its log, its
--             snapshot and the failure of its disk; Stored the JSON form of what it keeps; Settings,
--             Choosing, Parking and Launching the settings and the provider; Failing, Turns,
--             Recovering, Handing and Hearing what providers do and say; Ending the commands of
--             clients and the end; Restoring the opening; Conductor the loop. Watch says what an
--             operation may do to an invariant, and its children follow one through every operation;
--             Heard is about what listeners are told, Answered about those who wait for an
--             acknowledgement, Late about replaced providers
--   Prelude, Result  shared names, numbers, lists, results
--   Examples  concrete inputs, with a reader and printer of JSON that keep the assumed laws
--
-- A store appends through Jsonl, whose file it reads back on the next open; metadata replaces its
-- file as a whole; history goes from the store through Translate to a new provider; Choose keeps
-- its answers in a file of its own; the conductor asks Choose for a provider, starts it with the
-- history of the store, hands it the messages that wait in the metadata and logs what it says; the
-- daemon replays a store to the clients that attach and tells them what happens next. Every
-- operation takes what it finds outside as arguments: the bytes of its file, the time, fresh ids,
-- and what becomes of a read, an open or a write. A write may break off after any number of bytes.
-- State is passed explicitly, and errors are values; the texts of errors are left out, or a
-- parameter where they reach the log.
--
-- Parameters: the reader and printer of JSON text (`Codec`, with the laws `IsJson`), the Unicode
-- tables (`lower` for `str::to_lowercase`, with the law `IsLower`; `alphanumeric`, `trim`), floating-point numbers (`Doubles`), the registry's
-- answers. Integers of i64 are integers with their range written out (`fits_i64`). The backward
-- search of a file runs on fuel, one more than the length of the file, which is what the theorem on it
-- is about. A decimal number is printed with 19 digits at most, as an i64 has.
--
-- The conductor runs on a list of arrivals: the commands and events that its channel gave, and the
-- times when it gave none. What the process of a provider, the disk and the clock answer is a
-- function of the number of the call (`calls`), which every call counts up. A runner is a state
-- that the operations of `Runners` take and give back. What goes out is kept in the order it goes:
-- `published` for listeners, `answered` for those who wait for an acknowledgement, `put_down` for
-- the runners that were stopped. A hand-over that fails starts another, so it runs on fuel: six
-- more than there are providers. A hand-over inside another follows a provider that was set aside,
-- or a recovery that begins or turns to its handoff; a recovery that failed hands nothing over. An
-- attempt at launching runs on one more than there are providers. A change of metadata that was
-- never loaded would panic; it counts as a failure of the disk.
--
-- A connection of the daemon is the frames that its outbox took; one connection that listens to
-- several sessions is several values. Not modelled: the handle that posts to the conductor, the
-- providers themselves, processes, sockets, opening a session in the daemon and its gates, the
-- clients, permissions of files, and `jsonl::read`, which prints its errors.
mod Prelude
pub mod Json
pub mod Events
pub mod Jsonl
pub mod Result
pub mod Store
pub mod Meta
pub mod Translate
pub mod Choose
pub mod Daemon
pub mod Runner
pub mod Chat
mod Examples
