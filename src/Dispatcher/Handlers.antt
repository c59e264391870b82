-- ===== src/Dispatcher/Handlers.antt =====
-- The branch of `Dispatch` in src/server/dispatcher.cpp for each command, over the arguments behind
-- the command's name.
use redis_cpp.Base.{ℕ, Bool, Option, none, some, List, [], ◌∷◌, if◌then◌else◌, codes, Bytes, str_eq}
use redis_cpp.Base.Int.{ℤ, pos}
use redis_cpp.Resp.Numbers.{parse_int64}
use redis_cpp.Resp.{RespValue, simple_string, error, integer, bulk_string}
use redis_cpp.Store.{Store, flush_all}
use redis_cpp.Store.Reads
use redis_cpp.Store.Writes
use redis_cpp.Dispatcher.Glob.{filter_keys}
use redis_cpp.Dispatcher.Replies.{
  Outcome, to_upper, wrong_args_error, not_integer_error, clamp_to_int, refused, answered, written,
  ok_reply, bulk_array, integer_of, bulk_of, array_of, pairs_of, answer_with, write_with,
}

unfoldable pub do_ping : Bytes → List Bytes → Store → Outcome
do_ping name [] s = answered (simple_string (codes "PONG")) s
do_ping name (message ∷ []) s = answered (bulk_string message) s
do_ping name (_ ∷ _ ∷ _) s = refused (wrong_args_error name) s

unfoldable pub do_echo : Bytes → List Bytes → Store → Outcome
do_echo name (message ∷ []) s = answered (bulk_string message) s
do_echo name _ s = refused (wrong_args_error name) s

-- `SET key value EX seconds`, its number parsed.
abbrev pub set_with_ttl : ℕ → Bytes → Bytes → Option ℤ → Store → Outcome
set_with_ttl now key value none s = refused not_integer_error s
set_with_ttl now key value (some seconds) s =
    written ok_reply (Writes.expire now key seconds (Writes.set key value s)).1

unfoldable pub do_set : ℕ → Bytes → List Bytes → Store → Outcome
do_set now name (key ∷ value ∷ []) s = written ok_reply (Writes.set key value s)
do_set now name (key ∷ value ∷ option ∷ seconds ∷ []) s =
    if str_eq (to_upper option) (codes "EX")
    then set_with_ttl now key value (parse_int64 seconds) s
    else refused (error (codes "ERR syntax error")) s
do_set now name _ s = refused (wrong_args_error name) s

unfoldable pub do_get : ℕ → Bytes → List Bytes → Store → Outcome
do_get now name (key ∷ []) s = answer_with bulk_of (Reads.get now key s)
do_get now name _ s = refused (wrong_args_error name) s

unfoldable pub do_del : ℕ → Bytes → List Bytes → Store → Outcome
do_del now name [] s = refused (wrong_args_error name) s
do_del now name (key ∷ keys) s =
    let (removed, s') = Writes.del now (key ∷ keys) s in written (integer removed) s'

unfoldable pub do_exists : ℕ → Bytes → List Bytes → Store → Outcome
do_exists now name [] s = refused (wrong_args_error name) s
do_exists now name (key ∷ keys) s =
    let (count, s') = Reads.exists now (key ∷ keys) s in answered (integer count) s'

unfoldable pub do_keys : ℕ → Bytes → List Bytes → Store → Outcome
do_keys now name (pattern ∷ []) s =
    let (keys, s') = Reads.keys now s in answered (bulk_array (filter_keys pattern keys)) s'
do_keys now name _ s = refused (wrong_args_error name) s

unfoldable pub do_flushall : Bytes → List Bytes → Store → Outcome
do_flushall name [] s = written ok_reply (flush_all s)
do_flushall name _ s = refused (wrong_args_error name) s

abbrev pub integer_of_bool : Bool → RespValue
integer_of_bool b = integer (if b then pos 1 else pos 0)

abbrev pub expire_with : ℕ → Bytes → Option ℤ → Store → Outcome
expire_with now key none s = refused not_integer_error s
expire_with now key (some seconds) s =
    let (existed, s') = Writes.expire now key seconds s in written (integer_of_bool existed) s'

unfoldable pub do_expire : ℕ → Bytes → List Bytes → Store → Outcome
do_expire now name (key ∷ seconds ∷ []) s = expire_with now key (parse_int64 seconds) s
do_expire now name _ s = refused (wrong_args_error name) s

unfoldable pub do_ttl : ℕ → Bytes → List Bytes → Store → Outcome
do_ttl now name (key ∷ []) s = let (left, s') = Reads.ttl now key s in answered (integer left) s'
do_ttl now name _ s = refused (wrong_args_error name) s

-- LPUSH, or RPUSH where `left` is false.
unfoldable pub do_push : Bool → ℕ → Bytes → List Bytes → Store → Outcome
do_push left now name (key ∷ value ∷ values) s = write_with integer_of (
    if left
    then Writes.lpush (value ∷ values) now key s
    else Writes.rpush (value ∷ values) now key s)
do_push left now name _ s = refused (wrong_args_error name) s

unfoldable pub do_llen : ℕ → Bytes → List Bytes → Store → Outcome
do_llen now name (key ∷ []) s = answer_with integer_of (Reads.llen now key s)
do_llen now name _ s = refused (wrong_args_error name) s

abbrev pub range_with : ℕ → Bytes → Option ℤ → Option ℤ → Store → Outcome
range_with now key (some start) (some stop) s =
    answer_with array_of (Reads.lrange (clamp_to_int start) (clamp_to_int stop) now key s)
range_with now key (some start) none s = refused not_integer_error s
range_with now key none stop s = refused not_integer_error s

unfoldable pub do_lrange : ℕ → Bytes → List Bytes → Store → Outcome
do_lrange now name (key ∷ start ∷ stop ∷ []) s =
    range_with now key (parse_int64 start) (parse_int64 stop) s
do_lrange now name _ s = refused (wrong_args_error name) s

-- The arguments of HSET behind the key, in complete pairs, at least one.
abbrev pub add_pair : Bytes → Bytes → Option (List (Bytes × Bytes)) → Option (List (Bytes × Bytes))
add_pair field val none = none
add_pair field val (some pairs) = some ((field, val) ∷ pairs)

unfoldable pub complete_pairs : List Bytes → Option (List (Bytes × Bytes))
complete_pairs [] = some []
complete_pairs (_ ∷ []) = none
complete_pairs (field ∷ val ∷ rest) = add_pair field val (complete_pairs rest)

abbrev pub hset_with : ℕ → Bytes → Bytes → Option (List (Bytes × Bytes)) → Store → Outcome
hset_with now name key none s = refused (wrong_args_error name) s
hset_with now name key (some []) s = refused (wrong_args_error name) s
hset_with now name key (some (pair ∷ pairs)) s =
    write_with integer_of (Writes.hset (pair ∷ pairs) now key s)

unfoldable pub do_hset : ℕ → Bytes → List Bytes → Store → Outcome
do_hset now name [] s = refused (wrong_args_error name) s
do_hset now name (key ∷ rest) s = hset_with now name key (complete_pairs rest) s

unfoldable pub do_hget : ℕ → Bytes → List Bytes → Store → Outcome
do_hget now name (key ∷ field ∷ []) s = answer_with bulk_of (Reads.hget field now key s)
do_hget now name _ s = refused (wrong_args_error name) s

unfoldable pub do_hdel : ℕ → Bytes → List Bytes → Store → Outcome
do_hdel now name (key ∷ field ∷ fields) s =
    write_with integer_of (Writes.hdel (field ∷ fields) now key s)
do_hdel now name _ s = refused (wrong_args_error name) s

unfoldable pub do_hgetall : ℕ → Bytes → List Bytes → Store → Outcome
do_hgetall now name (key ∷ []) s = answer_with pairs_of (Reads.hgetall now key s)
do_hgetall now name _ s = refused (wrong_args_error name) s

unfoldable pub do_hlen : ℕ → Bytes → List Bytes → Store → Outcome
do_hlen now name (key ∷ []) s = answer_with integer_of (Reads.hlen now key s)
do_hlen now name _ s = refused (wrong_args_error name) s

unfoldable pub do_hexists : ℕ → Bytes → List Bytes → Store → Outcome
do_hexists now name (key ∷ field ∷ []) s = answer_with integer_of (Reads.hexists field now key s)
do_hexists now name _ s = refused (wrong_args_error name) s

-- HKEYS, or HVALS where `fields` is false.
unfoldable pub do_hkeys : Bool → ℕ → Bytes → List Bytes → Store → Outcome
do_hkeys fields now name (key ∷ []) s =
    answer_with array_of (if fields then Reads.hkeys now key s else Reads.hvals now key s)
do_hkeys fields now name _ s = refused (wrong_args_error name) s
