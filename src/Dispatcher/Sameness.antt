-- ===== src/Dispatcher/Sameness.antt =====
-- `Dispatch` of src/server/dispatcher.cpp depends on what shows of the store and on nothing else.
use redis_cpp.Base.{ℕ, ◌≡◌, Bool, true, false, ◌||◌, List, Bytes, arith}
use redis_cpp.Store.{Store}
use redis_cpp.Store.Alike.{Together, Alike}
use redis_cpp.Dispatcher.{
  Command, ping, echo, set, get, del, exists, keys, flushall, expire, ttl, lpush, rpush, llen,
  lrange, hset, hget, hdel, hgetall, hlen, hexists, hkeys, hvals, unknown, command_of, run,
  dispatch,
}
use redis_cpp.Dispatcher.Replies.{to_upper}
use redis_cpp.Dispatcher.Twins.{Likeness, equal, reordered, Twin, refused-Twin}
use redis_cpp.Dispatcher.HandlerTwins.{
  ttl_likeness, is_timeless, do_ping-Twin, do_echo-Twin, do_set-Twin, do_get-Twin, do_del-Twin,
  do_exists-Twin, do_keys-Twin, do_flushall-Twin, do_expire-Twin, do_ttl-Twin,
}
use redis_cpp.Dispatcher.ValueTwins.{
  do_push-Twin, do_llen-Twin, do_lrange-Twin, do_hset-Twin, do_hget-Twin, do_hdel-Twin,
  do_hgetall-Twin, do_hlen-Twin, do_hexists-Twin, do_hkeys-Twin,
}

-- How the replies to a command compare: the order of KEYS is that of the buckets, and TTL reads the
-- clock.
abbrev pub replies_alike : Bool → Command → Likeness
replies_alike shared keys = reordered
replies_alike shared ttl = ttl_likeness shared
replies_alike shared c = equal

module _ (shared : Bool) (now now' : ℕ) (name : Bytes) (s s' : Store)
    (together : Together shared now now') (a : Alike shared now now' s s') where
  run-Twin :
      (c : Command) (args : List Bytes)
      → (shared || is_timeless c args) ≡ true
      → Twin shared now now'
          (replies_alike shared c)
          (run c now name args s)
          (run c now' name args s')
  unfolding run
  run-Twin ping args h = do_ping-Twin shared now now' name s s' together a args
  run-Twin echo args h = do_echo-Twin shared now now' name s s' together a args
  run-Twin set args h = do_set-Twin shared now now' name s s' together a args h
  run-Twin get args h = do_get-Twin shared now now' name s s' together a args
  run-Twin del args h = do_del-Twin shared now now' name s s' together a args
  run-Twin exists args h = do_exists-Twin shared now now' name s s' together a args
  run-Twin keys args h = do_keys-Twin shared now now' name s s' together a args
  run-Twin flushall args h = do_flushall-Twin shared now now' name s s' together a args
  run-Twin expire args h =
      do_expire-Twin shared now now' name s s' together a args (ground (arith, h))
  run-Twin ttl args h = do_ttl-Twin shared now now' name s s' together a args
  run-Twin lpush args h = do_push-Twin shared now now' name s s' together a true args
  run-Twin rpush args h = do_push-Twin shared now now' name s s' together a false args
  run-Twin llen args h = do_llen-Twin shared now now' name s s' together a args
  run-Twin lrange args h = do_lrange-Twin shared now now' name s s' together a args
  run-Twin hset args h = do_hset-Twin shared now now' name s s' together a args
  run-Twin hget args h = do_hget-Twin shared now now' name s s' together a args
  run-Twin hdel args h = do_hdel-Twin shared now now' name s s' together a args
  run-Twin hgetall args h = do_hgetall-Twin shared now now' name s s' together a args
  run-Twin hlen args h = do_hlen-Twin shared now now' name s s' together a args
  run-Twin hexists args h = do_hexists-Twin shared now now' name s s' together a args
  run-Twin hkeys args h = do_hkeys-Twin shared now now' name s s' together a true args
  run-Twin hvals args h = do_hkeys-Twin shared now now' name s s' together a false args
  run-Twin unknown args h = refused-Twin shared now now' s s' together a _

-- Two well-formed stores with no memory budget that show the same from two instants on are sent
-- the same command at these. The instants are the same one; or else what the stores show does not
-- change with time, and the command is neither EXPIRE nor SET with an option. Then the stores
-- show the same afterwards, both or neither of the commands are handed to the log, and the
-- replies are the same, except that those of KEYS may be two arrays of the same texts, each as
-- often, in another order, and that nothing is said of the replies of TTL at two instants.
pub dispatch-Twin :
    (shared : Bool) (now now' : ℕ) (name : Bytes) (args : List Bytes) (s s' : Store)
    → Together shared now now'
    → Alike shared now now' s s'
    → (shared || is_timeless (command_of (to_upper name)) args) ≡ true
    → Twin shared now now'
        (replies_alike shared (command_of (to_upper name)))
        (dispatch now name args s)
        (dispatch now' name args s')
unfolding dispatch
dispatch-Twin shared now now' name args s s' together a h =
    run-Twin shared now now' name s s' together a (command_of (to_upper name)) args h
