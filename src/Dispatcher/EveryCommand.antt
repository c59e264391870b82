-- ===== src/Dispatcher/EveryCommand.antt =====
-- `Dispatch` of src/server/dispatcher.cpp as a whole.
use redis_cpp.Base.{ℕ, true, false, List, Bytes}
use redis_cpp.Store.{Store}
use redis_cpp.Store.Invariant.{IsValid}
use redis_cpp.Dispatcher.Replies.{to_upper}
use redis_cpp.Dispatcher.{
  Command, ping, echo, set, get, del, exists, keys, flushall, expire, ttl, lpush, rpush, llen,
  lrange, hset, hget, hdel, hgetall, hlen, hexists, hkeys, hvals, unknown, command_of, run,
  dispatch,
}
use redis_cpp.Dispatcher.Effects.{Effect, refused-Effect}
use redis_cpp.Dispatcher.HandlerEffects.{
  do_ping-Effect, do_echo-Effect, do_set-Effect, do_get-Effect, do_del-Effect, do_exists-Effect,
  do_keys-Effect, do_flushall-Effect, do_expire-Effect, do_ttl-Effect, do_push-Effect,
  do_llen-Effect, do_lrange-Effect, do_hset-Effect, do_hget-Effect, do_hdel-Effect,
  do_hgetall-Effect, do_hlen-Effect, do_hexists-Effect, do_hkeys-Effect,
}

module _ (now : ℕ) (name : Bytes) (s : Store) (valid : IsValid s) where
  run-Effect : (c : Command) (args : List Bytes) → Effect now s (run c now name args s)
  unfolding run
  run-Effect ping args = do_ping-Effect now name s valid args
  run-Effect echo args = do_echo-Effect now name s valid args
  run-Effect set args = do_set-Effect now name s valid args
  run-Effect get args = do_get-Effect now name s valid args
  run-Effect del args = do_del-Effect now name s valid args
  run-Effect exists args = do_exists-Effect now name s valid args
  run-Effect keys args = do_keys-Effect now name s valid args
  run-Effect flushall args = do_flushall-Effect now name s valid args
  run-Effect expire args = do_expire-Effect now name s valid args
  run-Effect ttl args = do_ttl-Effect now name s valid args
  run-Effect lpush args = do_push-Effect now name s valid true args
  run-Effect rpush args = do_push-Effect now name s valid false args
  run-Effect llen args = do_llen-Effect now name s valid args
  run-Effect lrange args = do_lrange-Effect now name s valid args
  run-Effect hset args = do_hset-Effect now name s valid args
  run-Effect hget args = do_hget-Effect now name s valid args
  run-Effect hdel args = do_hdel-Effect now name s valid args
  run-Effect hgetall args = do_hgetall-Effect now name s valid args
  run-Effect hlen args = do_hlen-Effect now name s valid args
  run-Effect hexists args = do_hexists-Effect now name s valid args
  run-Effect hkeys args = do_hkeys-Effect now name s valid true args
  run-Effect hvals args = do_hkeys-Effect now name s valid false args
  run-Effect unknown args = refused-Effect _ valid

-- Dispatching any arguments to a well-formed store leaves a well-formed store; a command that is
-- not handed to the log changes nothing that shows, from its instant on; and a command whose
-- reply is an error is not handed to the log.
pub dispatch-Effect :
    (now : ℕ) (name : Bytes) (args : List Bytes) (s : Store)
    → IsValid s
    → Effect now s (dispatch now name args s)
unfolding dispatch
dispatch-Effect now name args s valid =
    run-Effect now name s valid (command_of (to_upper name)) args
