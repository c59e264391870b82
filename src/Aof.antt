-- ===== src/Aof.antt =====
-- src/server/aof.h and src/server/aof.cpp: the log of write commands, and its replay. A file is the
-- list of its bytes. `::write`, `::fsync` and the clock are parameters: the answers of the calls in
-- order, and the instant at which each replayed command reads the clock.
pub mod Replay
pub mod Appending
pub mod Ordering
pub mod Damage
pub mod Torn
pub mod Deadlines
pub mod Logging
pub mod Recovery
use redis_cpp.Base.{
  ℕ, zero, suc, ◌-◌, Bool, true, false, Option, none, some, List, [], ◌∷◌, ◌++◌, length, take, drop,
  Bytes,
}
use redis_cpp.Resp.{array, encode, bulk_items}
use redis_cpp.Resp.Parser.{Status, incomplete, complete, protocol_error, feed, try_parse_command}
use redis_cpp.Store.{Store}
use redis_cpp.Dispatcher.{dispatch}

-- What `::write` returns: EINTR, another error, or the number of bytes taken.
pub data Answer : Type 0 where
  interrupted refused : Answer
  wrote : ℕ → Answer

-- How the loop of `Append` ends; it is still running when no answer is left.
pub data Progress : Type 0 where
  finished failed running : Progress

unfoldable pub write_all : List Answer → Bytes → Bytes → Progress × Bytes
write_all answers [] file = (finished, file)
write_all [] (c ∷ data') file = (running, file)
write_all (interrupted ∷ answers) (c ∷ data') file = write_all answers (c ∷ data') file
write_all (refused ∷ answers) (c ∷ data') file = (failed, file)
write_all (wrote n ∷ answers) (c ∷ data') file =
    write_all answers (drop n (c ∷ data')) (file ++ take n (c ∷ data'))

-- Whether the loop came to its end, with what `::fsync` then says.
abbrev pub synced : Bool → Progress → Bool
synced sync finished = sync
synced sync failed = false
synced sync running = false

-- `Append`, on a log that is open or not.
unfoldable pub append : Bool → List Answer → Bool → List Bytes → Bytes → Bool × Bytes
append false answers sync args file = (false, file)
append true answers sync args file =
    let r = write_all answers (encode (array (bulk_items args))) file in (synced sync r.0, r.1)

abbrev pub dispatch_args : ℕ → List Bytes → Store → Store
dispatch_args now [] s = s
dispatch_args now (name ∷ args) s = (dispatch now name args s).store

-- The loop of `LoadAof`; `clock i` is the instant at which the command `i` of the file runs. A
-- complete command takes a byte of the buffer at least, so its length is fuel enough.
unfoldable pub replay : ℕ → ℕ → (ℕ → ℕ) → Bytes → Store → Bool × Store
replay zero i clock buffer s = (true, s)
replay (suc fuel) i clock buffer s = elim (try_parse_command buffer).0 [
  | incomplete ↦ (true, s)
  | protocol_error e ↦ (false, s)
  | complete args ↦
      replay fuel (suc i) clock (try_parse_command buffer).1 (dispatch_args (clock i) args s)
]

-- `LoadAof`, on what the file holds, or on none that opens.
unfoldable pub load_aof : Option Bytes → (ℕ → ℕ) → Store → Bool × Store
load_aof none clock s = (false, s)
load_aof (some bytes) clock s = replay (suc (length bytes)) 0 clock (feed bytes []) s
