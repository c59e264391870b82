-- ===== src/Dispatcher.antt =====
-- src/server/dispatcher.cpp: one command against the store. The result is the reply, the store, and
-- whether the command was handed to the append-only log (`aof->Append(args)` where there is a log).
pub mod Glob
pub mod Replies
pub mod Handlers
pub mod GlobStar
pub mod GlobMatching
pub mod GlobEnds
pub mod Effects
pub mod HandlerEffects
pub mod EveryCommand
pub mod ReplyTypes
pub mod ReplyTyping
pub mod KeyListing
pub mod Twins
pub mod HandlerTwins
pub mod ValueTwins
pub mod Sameness
pub mod Sections
pub mod Keyspace
use redis_cpp.Base.{
  ℕ, zero, suc, ◌+◌, ◌*◌, ◌-◌, ◌%◌, ◌^◌, Bool, true, false, ◌&&◌, ◌||◌, Option, none, some, List,
  [], ◌∷◌, ◌++◌, if◌then◌else◌, ltb, leb, ◌==◌, codes, length, Bytes, str_eq,
}
use redis_cpp.Base.Int.{ℤ, pos, negsuc}
use redis_cpp.Resp.Numbers.{parse_int64}
use redis_cpp.Resp.{
  RespValue, simple_string, error, integer, bulk_string, nil_bulk_string, array, Items, no_items,
  item, bulk_items,
}
use redis_cpp.Store.{Result, StoreError, no_error, wrong_type, Store, flush_all}
use redis_cpp.Store.Reads
use redis_cpp.Store.Writes
use redis_cpp.Dispatcher.Glob.{filter_keys}
use redis_cpp.Dispatcher.Replies.{
  Outcome, to_upper, to_lower, wrong_args_error, wrong_type_error, not_integer_error, clamp_to_int,
  refused, answered, written, ok_reply, bulk_array, integer_of, bulk_of, array_of, pairs_of,
  answer_with, write_with,
}
use redis_cpp.Dispatcher.Handlers.{
  do_ping, do_echo, do_set, do_get, do_del, do_exists, do_keys, do_flushall, do_expire, do_ttl,
  do_push, do_llen, do_lrange, do_hset, do_hget, do_hdel, do_hgetall, do_hlen, do_hexists, do_hkeys,
}

-- The commands, in the order of the tests, and what any other name is.
pub data Command : Type 0 where
  ping echo set get del exists keys flushall expire ttl lpush rpush llen lrange : Command
  hset hget hdel hgetall hlen hexists hkeys hvals unknown : Command

unfoldable pub command_of : Bytes → Command
command_of cmd =
    if str_eq cmd (codes "PING")
    then ping
    else if str_eq cmd (codes "ECHO")
    then echo
    else if str_eq cmd (codes "SET")
    then set
    else if str_eq cmd (codes "GET")
    then get
    else if str_eq cmd (codes "DEL")
    then del
    else if str_eq cmd (codes "EXISTS")
    then exists
    else if str_eq cmd (codes "KEYS")
    then keys
    else if str_eq cmd (codes "FLUSHALL")
    then flushall
    else if str_eq cmd (codes "EXPIRE")
    then expire
    else if str_eq cmd (codes "TTL")
    then ttl
    else if str_eq cmd (codes "LPUSH")
    then lpush
    else if str_eq cmd (codes "RPUSH")
    then rpush
    else if str_eq cmd (codes "LLEN")
    then llen
    else if str_eq cmd (codes "LRANGE")
    then lrange
    else if str_eq cmd (codes "HSET")
    then hset
    else if str_eq cmd (codes "HGET")
    then hget
    else if str_eq cmd (codes "HDEL")
    then hdel
    else if str_eq cmd (codes "HGETALL")
    then hgetall
    else if str_eq cmd (codes "HLEN")
    then hlen
    else if str_eq cmd (codes "HEXISTS")
    then hexists
    else if str_eq cmd (codes "HKEYS")
    then hkeys
    else if str_eq cmd (codes "HVALS")
    then hvals
    else unknown

unfoldable pub run : Command → ℕ → Bytes → List Bytes → Store → Outcome
run ping now name args s = do_ping name args s
run echo now name args s = do_echo name args s
run set now name args s = do_set now name args s
run get now name args s = do_get now name args s
run del now name args s = do_del now name args s
run exists now name args s = do_exists now name args s
run keys now name args s = do_keys now name args s
run flushall now name args s = do_flushall name args s
run expire now name args s = do_expire now name args s
run ttl now name args s = do_ttl now name args s
run lpush now name args s = do_push true now name args s
run rpush now name args s = do_push false now name args s
run llen now name args s = do_llen now name args s
run lrange now name args s = do_lrange now name args s
run hset now name args s = do_hset now name args s
run hget now name args s = do_hget now name args s
run hdel now name args s = do_hdel now name args s
run hgetall now name args s = do_hgetall now name args s
run hlen now name args s = do_hlen now name args s
run hexists now name args s = do_hexists now name args s
run hkeys now name args s = do_hkeys true now name args s
run hvals now name args s = do_hkeys false now name args s
run unknown now name args s =
    refused (error (codes "ERR unknown command '" ++ (name ++ codes "'"))) s

-- `args` is `name ∷ args`, and never empty.
unfoldable pub dispatch : ℕ → Bytes → List Bytes → Store → Outcome
dispatch now name args s = run (command_of (to_upper name)) now name args s
