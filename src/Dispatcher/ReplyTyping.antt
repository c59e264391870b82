-- ===== src/Dispatcher/ReplyTyping.antt =====
-- Every command of src/server/dispatcher.cpp replies with its type of reply, branch by branch.
use redis_cpp.Base.{
  ℕ, refl, inl, inr, some, List, [], ◌∷◌, Bool-cases, Option-cases, Bytes, str_eq, codes,
}
use redis_cpp.Store.{Store}
use redis_cpp.Resp.Numbers.{parse_int64}
use redis_cpp.Dispatcher.{
  Command, ping, echo, set, get, del, exists, keys, flushall, expire, ttl, lpush, rpush, llen,
  lrange, hset, hget, hdel, hgetall, hlen, hexists, hkeys, hvals, unknown, command_of, run,
  dispatch,
}
use redis_cpp.Dispatcher.Replies.{
  to_upper, to_lower, wrong_args_error, integer_of, bulk_of, array_of, pairs_of,
}
use redis_cpp.Dispatcher.Handlers.{
  do_ping, do_echo, do_set, do_get, do_del, do_exists, do_keys, do_flushall, do_expire, do_ttl,
  do_push, do_llen, do_lrange, do_hset, do_hget, do_hdel, do_hgetall, do_hlen, do_hexists, do_hkeys,
  complete_pairs, hset_with,
}
use redis_cpp.Dispatcher.ReplyTypes.{
  ReplyType, status, greeting, text, number, listing, reply_type, IsClean, HasType, is_clean,
  is_clean-IsClean, around-IsClean, to_lower-IsClean, bulk_items-AreBulk, not_integer-HasType,
  ok-IsClean, answer_with-HasType, write_with-HasType, integer_of-HasType, bulk_of-HasType,
  array_of-HasType, pairs_of-HasType,
}

module _ (now : ℕ) (name : Bytes) (clean : IsClean name) (s : Store) where
  wrong_args-HasType : (ty : ReplyType) → HasType (wrong_args_error name) ty
  unfolding wrong_args_error is_clean
  wrong_args-HasType ty =
      around-IsClean (codes "ERR wrong number of arguments for '") (to_lower name)
        (codes "' command") refl (to_lower-IsClean name clean) refl

  do_ping-HasType : (args : List Bytes) → HasType (run ping now name args s).reply (reply_type ping)
  unfolding run do_ping is_clean
  do_ping-HasType [] = is_clean-IsClean (codes "PONG") refl
  do_ping-HasType (m ∷ []) = tt
  do_ping-HasType (m ∷ n ∷ args) = wrong_args-HasType greeting

  do_echo-HasType : (args : List Bytes) → HasType (run echo now name args s).reply (reply_type echo)
  unfolding run do_echo is_clean
  do_echo-HasType (m ∷ []) = tt
  do_echo-HasType _ = wrong_args-HasType text

  do_set-HasType : (args : List Bytes) → HasType (run set now name args s).reply (reply_type set)
  unfolding run do_set is_clean
  do_set-HasType (key ∷ value ∷ []) = ok-IsClean
  do_set-HasType (key ∷ value ∷ option ∷ seconds ∷ []) =
      elim (Bool-cases (str_eq (to_upper option) (codes "EX"))) [
        | inr other ↦ rw other (is_clean-IsClean (codes "ERR syntax error") refl)
        | inl ex ↦ rw ex (elim (Option-cases (parse_int64 seconds)) [
          | inl e ↦ rw e (not_integer-HasType status)
          | inr (n, e) ↦ rw e (ok-IsClean)
        ])
      ]
  do_set-HasType _ = wrong_args-HasType status

  do_get-HasType : (args : List Bytes) → HasType (run get now name args s).reply (reply_type get)
  unfolding run do_get is_clean
  do_get-HasType (key ∷ []) = answer_with-HasType text bulk_of bulk_of-HasType _
  do_get-HasType _ = wrong_args-HasType text

  do_del-HasType : (args : List Bytes) → HasType (run del now name args s).reply (reply_type del)
  unfolding run do_del is_clean
  do_del-HasType [] = wrong_args-HasType number
  do_del-HasType (key ∷ rest) = tt

  do_exists-HasType :
      (args : List Bytes) → HasType (run exists now name args s).reply (reply_type exists)
  unfolding run do_exists is_clean
  do_exists-HasType [] = wrong_args-HasType number
  do_exists-HasType (key ∷ rest) = tt

  do_keys-HasType : (args : List Bytes) → HasType (run keys now name args s).reply (reply_type keys)
  unfolding run do_keys is_clean
  do_keys-HasType (pattern ∷ []) = bulk_items-AreBulk _
  do_keys-HasType _ = wrong_args-HasType listing

  do_flushall-HasType :
      (args : List Bytes) → HasType (run flushall now name args s).reply (reply_type flushall)
  unfolding run do_flushall is_clean
  do_flushall-HasType [] = ok-IsClean
  do_flushall-HasType _ = wrong_args-HasType status

  do_expire-HasType :
      (args : List Bytes) → HasType (run expire now name args s).reply (reply_type expire)
  unfolding run do_expire is_clean
  do_expire-HasType (key ∷ seconds ∷ []) = elim (Option-cases (parse_int64 seconds)) [
    | inl e ↦ rw e (not_integer-HasType number)
    | inr (n, e) ↦ rw e tt
  ]
  do_expire-HasType _ = wrong_args-HasType number

  do_ttl-HasType : (args : List Bytes) → HasType (run ttl now name args s).reply (reply_type ttl)
  unfolding run do_ttl is_clean
  do_ttl-HasType (key ∷ []) = tt
  do_ttl-HasType _ = wrong_args-HasType number

  do_lpush-HasType :
      (args : List Bytes) → HasType (run lpush now name args s).reply (reply_type lpush)
  unfolding run do_push is_clean
  do_lpush-HasType (key ∷ value ∷ values) =
      write_with-HasType number integer_of integer_of-HasType _
  do_lpush-HasType _ = wrong_args-HasType number

  do_rpush-HasType :
      (args : List Bytes) → HasType (run rpush now name args s).reply (reply_type rpush)
  unfolding run do_push is_clean
  do_rpush-HasType (key ∷ value ∷ values) =
      write_with-HasType number integer_of integer_of-HasType _
  do_rpush-HasType _ = wrong_args-HasType number

  do_llen-HasType : (args : List Bytes) → HasType (run llen now name args s).reply (reply_type llen)
  unfolding run do_llen is_clean
  do_llen-HasType (key ∷ []) = answer_with-HasType number integer_of integer_of-HasType _
  do_llen-HasType _ = wrong_args-HasType number

  do_lrange-HasType :
      (args : List Bytes) → HasType (run lrange now name args s).reply (reply_type lrange)
  unfolding run do_lrange is_clean
  do_lrange-HasType (key ∷ start ∷ stop ∷ []) = elim (Option-cases (parse_int64 start)) [
    | inl e ↦ rw e (not_integer-HasType listing)
    | inr (m, e) ↦ rw e (elim (Option-cases (parse_int64 stop)) [
      | inl e' ↦ rw e' (not_integer-HasType listing)
      | inr (n, e') ↦ rw e' (answer_with-HasType listing array_of array_of-HasType _)
    ])
  ]
  do_lrange-HasType _ = wrong_args-HasType listing

  hset_with-HasType :
      (key : Bytes) (pairs : List (Bytes × Bytes))
      → HasType (hset_with now name key (some pairs) s).reply number
  hset_with-HasType key [] = wrong_args-HasType number
  hset_with-HasType key (p ∷ ps) = write_with-HasType number integer_of integer_of-HasType _

  do_hset-HasType : (args : List Bytes) → HasType (run hset now name args s).reply (reply_type hset)
  unfolding run do_hset is_clean
  do_hset-HasType [] = wrong_args-HasType number
  do_hset-HasType (key ∷ rest) = elim (Option-cases (complete_pairs rest)) [
    | inl e ↦ rw e (wrong_args-HasType number)
    | inr (pairs, e) ↦ rw e (hset_with-HasType key pairs)
  ]

  do_hget-HasType : (args : List Bytes) → HasType (run hget now name args s).reply (reply_type hget)
  unfolding run do_hget is_clean
  do_hget-HasType (key ∷ field ∷ []) = answer_with-HasType text bulk_of bulk_of-HasType _
  do_hget-HasType _ = wrong_args-HasType text

  do_hdel-HasType : (args : List Bytes) → HasType (run hdel now name args s).reply (reply_type hdel)
  unfolding run do_hdel is_clean
  do_hdel-HasType (key ∷ field ∷ fields) = write_with-HasType number integer_of integer_of-HasType _
  do_hdel-HasType _ = wrong_args-HasType number

  do_hgetall-HasType :
      (args : List Bytes) → HasType (run hgetall now name args s).reply (reply_type hgetall)
  unfolding run do_hgetall is_clean
  do_hgetall-HasType (key ∷ []) = answer_with-HasType listing pairs_of pairs_of-HasType _
  do_hgetall-HasType _ = wrong_args-HasType listing

  do_hlen-HasType : (args : List Bytes) → HasType (run hlen now name args s).reply (reply_type hlen)
  unfolding run do_hlen is_clean
  do_hlen-HasType (key ∷ []) = answer_with-HasType number integer_of integer_of-HasType _
  do_hlen-HasType _ = wrong_args-HasType number

  do_hexists-HasType :
      (args : List Bytes) → HasType (run hexists now name args s).reply (reply_type hexists)
  unfolding run do_hexists is_clean
  do_hexists-HasType (key ∷ field ∷ []) = answer_with-HasType number integer_of integer_of-HasType _
  do_hexists-HasType _ = wrong_args-HasType number

  do_hkeys-HasType :
      (args : List Bytes) → HasType (run hkeys now name args s).reply (reply_type hkeys)
  unfolding run do_hkeys is_clean
  do_hkeys-HasType (key ∷ []) = answer_with-HasType listing array_of array_of-HasType _
  do_hkeys-HasType _ = wrong_args-HasType listing

  do_hvals-HasType :
      (args : List Bytes) → HasType (run hvals now name args s).reply (reply_type hvals)
  unfolding run do_hkeys is_clean
  do_hvals-HasType (key ∷ []) = answer_with-HasType listing array_of array_of-HasType _
  do_hvals-HasType _ = wrong_args-HasType listing

  do_unknown-HasType :
      (args : List Bytes) → HasType (run unknown now name args s).reply (reply_type unknown)
  unfolding run is_clean
  do_unknown-HasType args =
      around-IsClean (codes "ERR unknown command '") name (codes "'") refl clean refl

  run-HasType :
      (c : Command) (args : List Bytes) → HasType (run c now name args s).reply (reply_type c)
  run-HasType ping args = do_ping-HasType args
  run-HasType echo args = do_echo-HasType args
  run-HasType set args = do_set-HasType args
  run-HasType get args = do_get-HasType args
  run-HasType del args = do_del-HasType args
  run-HasType exists args = do_exists-HasType args
  run-HasType keys args = do_keys-HasType args
  run-HasType flushall args = do_flushall-HasType args
  run-HasType expire args = do_expire-HasType args
  run-HasType ttl args = do_ttl-HasType args
  run-HasType lpush args = do_lpush-HasType args
  run-HasType rpush args = do_rpush-HasType args
  run-HasType llen args = do_llen-HasType args
  run-HasType lrange args = do_lrange-HasType args
  run-HasType hset args = do_hset-HasType args
  run-HasType hget args = do_hget-HasType args
  run-HasType hdel args = do_hdel-HasType args
  run-HasType hgetall args = do_hgetall-HasType args
  run-HasType hlen args = do_hlen-HasType args
  run-HasType hexists args = do_hexists-HasType args
  run-HasType hkeys args = do_hkeys-HasType args
  run-HasType hvals args = do_hvals-HasType args
  run-HasType unknown args = do_unknown-HasType args

-- With a command name that has no byte of a line end in it, the reply of Dispatch is an error, or
-- has the type of reply that belongs to the command; and an error or a status has no byte of a
-- line end in it.
pub dispatch-HasType :
    (now : ℕ) (name : Bytes) (args : List Bytes) (s : Store)
    → IsClean name
    → HasType (dispatch now name args s).reply (reply_type (command_of (to_upper name)))
unfolding dispatch
dispatch-HasType now name args s clean =
    run-HasType now name clean s (command_of (to_upper name)) args
