-- ===== src/Aof/Damage.antt =====
-- Logs of src/server/aof.cpp that `LoadAof` does not read to their end: a command of more arguments
-- than the parser takes, as a client may send it on a line.
use mathlib.Core.List.{append_assoc}
use redis_cpp.Base.{
  ℕ, ◌+◌, ◌^◌, ◌≤◌, ◌<◌, ◌≡◌, refl, true, false, some, List, [], ◌∷◌, ◌++◌, arith, ltb, leb, str_eq,
  codes, length, Bytes, All,
}
use redis_cpp.Base.Int.{pos}
use redis_cpp.Resp.{encode, encode_items, bulk_items}
use redis_cpp.Resp.Numbers.{parse_int64-to_string}
use redis_cpp.Resp.Parser.{complete, max_args, try_parse_multibulk, try_parse_command}
use redis_cpp.Resp.RoundTrip.{IsCommand, wire, count_items-bulk_items, split_crlf-number}
use redis_cpp.Resp.Inline.{IsWord, line_of, try_parse_command-line_of}
use redis_cpp.Store.{Store}
use redis_cpp.Dispatcher.{dispatch, run, command_of}
use redis_cpp.Dispatcher.Handlers.{do_del}
use redis_cpp.Dispatcher.Replies.{to_upper}
use redis_cpp.Aof.{load_aof}
use redis_cpp.Aof.Replay.{log_of, run_all, stops, load_aof-stops}

-- The parser refuses its own encoding of a command of too many arguments.
too_many-stops :
    (args : List Bytes) (tail : Bytes)
    → max_args < length args
    → length args < 2 ^ 63
    → stops (try_parse_command (wire args ++ tail)).0 ≡ some false
unfolding try_parse_command try_parse_multibulk encode
too_many-stops args tail many fits =
    let n = length args in
    let some_there : leb n 0 ≡ false = ground arith in
    let more : ltb max_args n ≡ true = ground arith in
    simp append_assoc (
      rw
        (
          count_items-bulk_items args,
          split_crlf-number n (encode_items (bulk_items args) ++ tail),
          parse_int64-to_string (pos n) fits,
          some_there,
          more,
        )
        refl)

-- DEL of 1024 words or more, on a line, is parsed as one command and handed to the log; and
-- LoadAof of a log of commands within the limits of the parser with this one behind them, and
-- anything behind it, returns false and replays the commands before it only.
pub inline_del_lost :
    (commands : List (List Bytes)) (keys : List Bytes) (rest tail : Bytes) (now : ℕ) (clock : ℕ → ℕ)
    (s s' : Store)
    → All IsCommand commands
    → All IsWord keys
    → max_args ≤ length keys
    → length keys + 1 < 2 ^ 63
    → let args = codes "DEL" ∷ keys in
      (try_parse_command (line_of args ++ (13 ∷ 10 ∷ rest)) ≡ (complete args, rest))
      × ((dispatch now (codes "DEL") keys s).logged ≡ true)
      × (load_aof (some (log_of commands ++ (wire args ++ tail))) clock s'
          ≡ (false, run_all 0 clock commands s'))
unfolding dispatch run command_of do_del to_upper str_eq
inline_del_lost commands [] rest tail now clock s s' ok words many fits = absurd (omega arith)
inline_del_lost commands (key ∷ keys) rest tail now clock s s' ok words many fits = (
  try_parse_command-line_of b'D' (codes "EL") (key ∷ keys) rest ((refl, (refl, (refl, tt))), words)
      refl,
  refl,
  load_aof-stops commands (wire (codes "DEL" ∷ key ∷ keys) ++ tail) clock s' false ok
      (too_many-stops (codes "DEL" ∷ key ∷ keys) tail (omega arith) (omega arith)),
)
