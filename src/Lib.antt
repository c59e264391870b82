-- ===== src/Lib.antt =====
-- redis_cpp: a key-value server that speaks the protocol of Redis, in C++. A client's bytes are
-- gathered by `CommandParser` (src/resp/command_parser.cpp), a complete request goes to `Dispatch`
-- (src/server/dispatcher.cpp), which checks its arguments and calls the `Store`
-- (src/store/store.cpp), and the reply is a `RespValue` that `Encode` (src/resp/resp_value.cpp)
-- turns into bytes. The keyspace of the store, and every hash value in it, is a `HashTable`
-- (src/store/hash_table.h) written by hand. A command that changes the store is handed to the
-- append-only log (src/server/aof.cpp), which `LoadAof` replays through the parser and `Dispatch`.
-- The `TcpServer` (src/server/tcp_server.cpp) has a thread that accepts and one for each client,
-- which feeds the parser. `main` (src/main.cpp) loads a log or a snapshot file
-- (src/persistence/rdb.cpp) before the server starts, and saves a snapshot at the end.
--
-- Base: the names that the other modules share; bytes, machine integers, lists.
-- HashTable: src/store/hash_table.h. `Set` is `set_key`, the other operations keep their names. A
--   pointer that `Get` returns is the key, and a write through it is `put_at`. Nodes and Buckets
--   are about chains and bucket vectors, Rehash about `RehashTo`, Invariant and Methods about the
--   table as a map, Sample about `SampleKeys`.
-- Value: src/store/value.h.
-- Store: src/store/store.h and src/store/store.cpp; the state, expiry, accounting and eviction.
--   Store/Reads has the commands that only read and Store/Writes the others. Invariant has the
--   well-formedness of a store, View what a client can see of it at an instant; Lookup, Modify,
--   Strings, Lists, Slice, Hashes, HashDeletes, Listing, Expiry and Evict state the commands in
--   terms of the view. Alike is about two stores that show the same.
--   Concurrent has the lock sections of reads and of the sweeper as a step relation, Interleaving
--   what any order of them shows. Snapshot has `Snapshot` and `LoadSnapshot`; Loading, Reload and
--   Content state what a store and a value keep through them.
-- Resp: src/resp/resp_value.cpp; Resp/Parser: src/resp/command_parser.cpp. Numbers is about the
--   decimal text of integers, RoundTrip about a request that is written and read, Feeding about
--   requests that arrive in parts, Shrinking and Ends about the bytes that a command
--   takes, Inline about requests that are lines of words.
-- Dispatcher: src/server/dispatcher.cpp; a function `do_...` in Dispatcher/Handlers for each
--   command, Dispatcher/Glob for `GlobMatch`, with GlobStar, GlobMatching and GlobEnds about
--   it; Effects, HandlerEffects and EveryCommand are about what a command may change, ReplyTypes and
--   ReplyTyping about the replies, Twins, HandlerTwins, ValueTwins and Sameness about a command on
--   two stores that show the same, KeyListing about KEYS. Sections has the two calls of
--   `SET ... EX` as steps, Keyspace the quotient of the stores by what they show, and commands on it.
-- Aof: src/server/aof.cpp; Replay is about `LoadAof`, Appending about `Append`, Ordering about
--   clients that share a log. Logging has `Dispatch` with a log, request after request, Recovery is
--   about the replay of such a log, and Torn, Damage and Deadlines about what a replay loses or
--   changes.
-- Wire: `ByteWriter` and `ByteReader` of src/persistence/rdb.cpp, and RoundTrip about them.
-- Rdb: `SaveRdb` and `LoadRdb` of src/persistence/rdb.cpp. Entries and Images are about what is
--   read of what is written, Checksum about `Fnv1a64`, Corruption about a file with a wrong byte,
--   Reloading about a store that is saved and loaded, Content about a value.
-- Server: src/server/tcp_server.cpp; `SendAll` is `send_all` and `HandleClient` is
--   `handle_client`, with Sending, Requests, Refusals and Draining about them. Lifecycle has
--   `Start`, and the accept loop, `ClientGuard` and `Stop` as a step relation on the state of
--   `TcpServer`, with Counting, Stopping, Waking, Finishing and Races about it.
-- Program: src/main.cpp; `ParseArgs` is `parse_args`, and `main` before and behind the run of the
--   server is `boot` and `shut_down`. Flags and Restart are about these, Recovery and
--   Serving about a process with a log that is started again.
-- Tests: the theorems with hypotheses, applied at concrete inputs.
--
-- The clock is a number of nanoseconds that every operation takes as an argument, `now`: an
-- operation of the store is one step at one instant. Its lock sections, which threads may
-- interleave, are the steps of Concurrent. A deadline is a 64-bit integer, and the overflow of
-- `Clock::now() + seconds`, or of the milliseconds of a file, which C++ leaves undefined, is the
-- wrap-around of the machines in use. The random draws of `SampleKeys` are a function in the state
-- of the store, with a counter of the draws made. What is in view of a key is its value, unless it
-- has expired, without its stamp of last access. Lengths in replies are 32-bit integers.
--
-- Loops are structural recursion. The eviction loop has the number of entries as fuel, which is
-- enough since each round deletes one. The inline parser has the length of the buffer as fuel,
-- the replay of a log likewise, since each round takes a byte at least. `GlobMatch` has (text +
-- 1) times (pattern + text + 2) as fuel: between two moves of the last star's end, at most once
-- for each byte of the text, a round takes a byte of the pattern. `write` and `fsync` are lists
-- of answers; a file is the list of its bytes. The inner loop of `HandleClient` has the length of
-- the buffer as fuel, and one more, since a command takes a byte at least; `SendAll` has the length
-- of the data, since a call of `send` that does not fail takes a byte.
--
-- The file system, the sockets and the C library are parameters: which calls succeed, what `recv`
-- delivers, how many bytes `send` and `write` take and how many reach the disk, and `atoi`. In the
-- step relation of the server a step is one access to what the threads share or one call to the
-- system, in any order; a client's loop ends because `Stop` has shut its socket down, or by one of
-- the client's own causes, which may come at any time. Memory is sequentially consistent, and the
-- wait of `Stop` ends at any count, since it is bounded.
--
-- Not modelled: the length of the sweeper's wait, signals and messages on the terminal, the
-- opening and closing of the log's file, an allocation that fails, tests and benchmarks.
pub mod Base
pub mod HashTable
pub mod Value
pub mod Store
pub mod Resp
pub mod Dispatcher
pub mod Aof
pub mod Wire
pub mod Rdb
pub mod Server
pub mod Program
mod Tests
