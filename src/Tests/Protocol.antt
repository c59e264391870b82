-- ===== src/Tests/Protocol.antt =====
-- A short log and its commands, for src/resp/command_parser.cpp and src/server/aof.cpp.
use redis_cpp.Server.{Session, drain, handle_client}
use redis_cpp.Server.Refusals.{IsRefused, with_error, handle_client-refused}
use redis_cpp.Resp.Parser.{try_parse_multibulk, split_crlf}
use redis_cpp.Resp.Numbers.{parse_number, parse_digits}
use redis_cpp.Server.Draining.{drain_enough}
use redis_cpp.Server.Sending.{IsOpen}
use redis_cpp.Server.Requests.{answered_all, handle_client-answered}
use mathlib.Core.List.{flatten}
use redis_cpp.Resp.Inline.{IsWord, line_of}
use redis_cpp.Base.{
  All, ap, ◌∙◌, take, drop, append-nil, take-drop, ◌≡◌, ◌⊎◌, refl, true, List, [], ◌∷◌, ◌++◌, arith,
  codes, Bytes,
}
use redis_cpp.Resp.Numbers.{to_string, parse_int64, parse_int64-to_string}
use redis_cpp.Resp.Parser.{complete, try_parse_command}
use redis_cpp.Resp.RoundTrip.{IsCommand, wire, try_parse_command-encode}
use redis_cpp.Store.{new_store}
use redis_cpp.Aof.{interrupted, wrote, refused, write_all, append}
use redis_cpp.Aof.Replay.{log_of}
use redis_cpp.Aof.{load_aof}
use redis_cpp.Aof.Replay.{run_all}
use redis_cpp.Aof.Torn.{append_torn-lost}
use redis_cpp.Aof.Damage.{inline_del_lost}
use redis_cpp.Aof.Deadlines.{set_ex, deadline_renewed}
use redis_cpp.Store.Invariant.{new_store-IsValid}
use redis_cpp.Store.View.{view}
use redis_cpp.Store.Expiry.{expiring}
use redis_cpp.Store.Writes.{string_value}
use redis_cpp.Dispatcher.{dispatch}
use redis_cpp.Base.{ℕ, zero, suc, false, none, some, length-replicate, replicate}
use redis_cpp.Base.Int.{pos}
use redis_cpp.Resp.{encode, count_items, bulk_items}
use redis_cpp.Resp.Numbers.{decimal, decimal_fuel}
use redis_cpp.Aof.Appending.{Loads, append_any-Loads}

abbrev pub set_command : List Bytes
set_command = codes "SET" ∷ codes "k" ∷ codes "v" ∷ []

abbrev pub del_command : List Bytes
del_command = codes "DEL" ∷ codes "k" ∷ []

pub set_command-IsCommand : IsCommand set_command
set_command-IsCommand = record {
  some_args = omega arith;
  few_args = omega arith;
  small_args = (omega arith, (omega arith, (omega arith, tt)));
}

pub del_command-IsCommand : IsCommand del_command
del_command-IsCommand = record {
  some_args = omega arith;
  few_args = omega arith;
  small_args = (omega arith, (omega arith, tt));
}

try_parse_command-encode_example :
    try_parse_command (wire set_command ++ codes "*1") ≡ (complete set_command, codes "*1")
try_parse_command-encode_example =
    try_parse_command-encode set_command (codes "*1") set_command-IsCommand

all_written :
    (append true
      (wrote 2 ∷ interrupted ∷ wrote 100 ∷ [])
      true
      del_command
      (log_of (set_command ∷ []))).0
    ≡ true
unfolding append write_all redis_cpp.Resp.encode to_string redis_cpp.Resp.Numbers.decimal
    redis_cpp.Resp.Numbers.decimal_fuel redis_cpp.Resp.count_items redis_cpp.Resp.bulk_items
all_written = refl

append_any-Loads_example :
    Loads
      (set_command ∷ [])
      (append true (wrote 2 ∷ refused ∷ []) true del_command (log_of (set_command ∷ []))).1
    ⊎ Loads
        ((set_command ∷ []) ++ (del_command ∷ []))
        (append true (wrote 2 ∷ refused ∷ []) true del_command (log_of (set_command ∷ []))).1
append_any-Loads_example =
    append_any-Loads (set_command ∷ []) del_command (wrote 2 ∷ refused ∷ []) true
      (set_command-IsCommand, tt) del_command-IsCommand

-- A client that sends two commands, cut within the first, to a socket that takes one byte a call.
abbrev pub sent_bytes : Bytes
sent_bytes = log_of (set_command ∷ del_command ∷ [])

pub byte_by_byte : IsOpen (λ sent n. 1)
byte_by_byte sent n h = omega arith

pub cut_pieces : flatten (take 5 sent_bytes ∷ drop 5 sent_bytes ∷ []) ≡ sent_bytes
unfolding flatten
cut_pieces =
    ap (λ l. take 5 sent_bytes ++ l) (append-nil (drop 5 sent_bytes)) ∙ take-drop 5 sent_bytes

abbrev connected : Session
connected = record { store = new_store (λ position buckets. 0); log = []; sent = []; served = 0 }

handle_client-answered_example :
    handle_client (λ sent n. 1) (λ i. i) (take 5 sent_bytes ∷ drop 5 sent_bytes ∷ []) [] connected
    ≡ answered_all (λ i. i) (set_command ∷ del_command ∷ []) connected
handle_client-answered_example =
    handle_client-answered (λ sent n. 1) (λ i. i) (take 5 sent_bytes ∷ drop 5 sent_bytes ∷ [])
      (set_command ∷ del_command ∷ []) connected byte_by_byte
      (set_command-IsCommand, (del_command-IsCommand, tt)) cut_pieces

drain_enough_example :
    drain 5 (λ sent n. 1) (λ i. i) (codes "*1") connected
    ≡ drain 9 (λ sent n. 1) (λ i. i) (codes "*1") connected
drain_enough_example =
    drain_enough 5 9 (λ sent n. 1) (λ i. i) (codes "*1") connected (omega arith) (omega arith)

-- A request that is typed by hand.
typed : All IsWord (codes "GET" ∷ codes "k" ∷ [])
typed = ((refl, (refl, (refl, tt))), ((refl, tt), tt))

-- A write that fails before the last byte of a command.
abbrev torn_part : Bytes
torn_part = take 26 (wire set_command)

append_torn-lost_example :
    load_aof
      (some
        (append true
          (wrote 100 ∷ [])
          true
          del_command
          (append true (wrote 26 ∷ refused ∷ []) true set_command []).1).1)
      (λ i. i)
      (new_store (λ i n. 0))
    ≡ (false, new_store (λ i n. 0))
unfolding append write_all encode to_string decimal decimal_fuel count_items bulk_items
append_torn-lost_example =
    append_torn-lost [] set_command del_command torn_part (wrote 26 ∷ refused ∷ []) (wrote 100 ∷ [])
      true true (λ i. i) (new_store (λ i n. 0)) tt set_command-IsCommand refl refl refl

abbrev many_keys : List Bytes
many_keys = replicate 1024 (codes "k")

words-IsWord : (n : ℕ) → All IsWord (replicate n (codes "k"))
unfolding replicate
words-IsWord zero = tt
words-IsWord (suc n) = ((refl, tt), words-IsWord n)

inline_del_lost_example :
    let args = codes "DEL" ∷ many_keys in
    (try_parse_command (line_of args ++ (13 ∷ 10 ∷ [])) ≡ (complete args, []))
    × ((dispatch 5 (codes "DEL") many_keys (new_store (λ i n. 0))).logged ≡ true)
    × (load_aof
          (some (log_of (set_command ∷ []) ++ (wire args ++ wire del_command)))
          (λ i. i)
          (new_store (λ i n. 0))
        ≡ (false, run_all 0 (λ i. i) (set_command ∷ []) (new_store (λ i n. 0))))
inline_del_lost_example =
    inline_del_lost (set_command ∷ []) many_keys [] (wire del_command) 5 (λ i. i)
      (new_store (λ i n. 0)) (new_store (λ i n. 0)) (set_command-IsCommand, tt) (words-IsWord 1024)
      (omega (arith, length-replicate 1024 (codes "k")))
      (omega (arith, length-replicate 1024 (codes "k")))

set_ex-IsCommand : IsCommand (codes "SET" ∷ set_ex (codes "k") (codes "v") (codes "2"))
set_ex-IsCommand = record {
  some_args = omega arith;
  few_args = omega arith;
  small_args = (omega arith, (omega arith, (omega arith, (omega arith, (omega arith, tt)))));
}

-- The key is given two seconds, and the log is replayed after three.
deadline_renewed_example :
    let o =
      dispatch 0
        (codes "SET")
        (set_ex (codes "k") (codes "v") (codes "2"))
        (new_store (λ i n. 0)) in
    (o.logged ≡ true)
    × (view 4000000000 (codes "k") o.store ≡ none)
    × (view 4000000000
          (codes "k")
          (load_aof
            (some (wire (codes "SET" ∷ set_ex (codes "k") (codes "v") (codes "2"))))
            (λ _. 3000000000)
            (new_store (λ i n. 0))).1
        ≡ some (expiring 3000000000 2 (string_value (codes "v"))))
unfolding to_string decimal decimal_fuel
deadline_renewed_example =
    deadline_renewed 0 3000000000 4000000000 (codes "k") (codes "v") (codes "2") 2
      (new_store (λ i n. 0)) (new_store (λ i n. 0)) set_ex-IsCommand (new_store-IsValid (λ i n. 0))
      refl (new_store-IsValid (λ i n. 0)) refl (parse_int64-to_string (pos 2) (omega arith))
      (omega arith) (omega arith) (omega arith) (omega arith) (omega arith)

-- A command, and a request with a count that is no number, cut in two.
abbrev bad_count : Bytes
bad_count = b'x' ∷ 13 ∷ 10 ∷ []

abbrev bad_bytes : Bytes
bad_bytes = log_of (set_command ∷ []) ++ (b'*' ∷ bad_count)

bad_count-IsRefused : IsRefused bad_count (codes "invalid multibulk length")
unfolding try_parse_command try_parse_multibulk split_crlf parse_int64 parse_number parse_digits
bad_count-IsRefused = refl

bad_pieces : flatten (take 9 bad_bytes ∷ drop 9 bad_bytes ∷ []) ≡ bad_bytes
unfolding flatten
bad_pieces = ap (λ l. take 9 bad_bytes ++ l) (append-nil (drop 9 bad_bytes)) ∙ take-drop 9 bad_bytes

handle_client-refused_example :
    handle_client (λ sent n. 1) (λ i. i) (take 9 bad_bytes ∷ drop 9 bad_bytes ∷ []) [] connected
    ≡ with_error
        (codes "invalid multibulk length")
        (answered_all (λ i. i) (set_command ∷ []) connected)
handle_client-refused_example =
    handle_client-refused (λ sent n. 1) (λ i. i) (take 9 bad_bytes ∷ drop 9 bad_bytes ∷ [])
      (set_command ∷ []) bad_count (codes "invalid multibulk length") connected byte_by_byte
      (set_command-IsCommand, tt) bad_count-IsRefused bad_pieces
