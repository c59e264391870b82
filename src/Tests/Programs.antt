-- ===== src/Tests/Programs.antt =====
-- Runs of src/main.cpp with one string in the store.
use redis_cpp.Base.{
  ℕ, ◌+◌, take, drop, ◌-◌, ◌≡◌, refl, true, false, ◌≤◌, ◌++◌, length, str_eq, arith, none, some,
  List, [], ◌∷◌, codes, Bytes,
}
use redis_cpp.Base.Int.{ℤ, pos}
use redis_cpp.Store.Invariant.{IsValid, peek}
use redis_cpp.Store.View.{view}
use redis_cpp.Store.Snapshot.{snapshot}
use redis_cpp.Store.Snapshot.Loading.{reload}
use redis_cpp.Store.Snapshot.Reload.{captured}
use redis_cpp.Rdb.{image}
use redis_cpp.Rdb.Reloading.{filed_entry}
use redis_cpp.Program.{Options, default_options, Clocks, boot, shut_down}
use redis_cpp.Program.Flags.{Setting, port, rdb, unknown}
use redis_cpp.Resp.{encode, count_items, bulk_items}
use redis_cpp.Resp.Numbers.{to_string, decimal, decimal_fuel}
use redis_cpp.Dispatcher.{dispatch, run, command_of}
use redis_cpp.Dispatcher.Handlers.{do_del, do_set}
use redis_cpp.Dispatcher.Replies.{to_upper}
use redis_cpp.Aof.{append, write_all, wrote, interrupted}
use redis_cpp.Aof.Replay.{log_of}
use redis_cpp.Aof.Logging.{Request, serve_all, IsDurable, logged_of, dispatch_logged}
use redis_cpp.Program.Recovery.{opened, boot-serve_all}
use redis_cpp.Program.Serving.{connected_to, handle_client-restart}
use redis_cpp.Server.{handle_client}
use redis_cpp.Tests.Protocol.{
  set_command, del_command, set_command-IsCommand, del_command-IsCommand, sent_bytes, byte_by_byte,
  cut_pieces,
}
use redis_cpp.Program.Restart.{boot-shut_down, shut_down-unlogged}
use redis_cpp.Tests.Stores.{key, with_text, with_text-IsValid}
use redis_cpp.Tests.Persistence.{disk, files, one_entry-Writable, few_entries, whole, saved}

-- The first digit of a number.
abbrev first_digit : Bytes → ℤ
first_digit [] = pos 0
first_digit (c ∷ cs) = pos (c - 48)

abbrev settings : List Setting
settings = port (codes "7") ∷ unknown (codes "-v") ∷ rdb (codes "a") ∷ port (codes "8") ∷ []

abbrev clocks : Clocks
clocks = record { replayed = λ i. i; read_at = 8; now = 9; wall = 10 }

abbrev stream : ℕ → ℕ → ℕ
stream position buckets = 0

boot-shut_down_example :
    let s =
      (boot default_options clocks stream none false
        (shut_down disk 5 7 (record { store = with_text; logging = false }) files).file).store in
    IsValid s × (peek key s ≡ reload 9 10 (filed_entry 8 (captured 5 7 key (view 5 key with_text))))
boot-shut_down_example =
    boot-shut_down default_options clocks stream none false disk 5 7
      (record { store = with_text; logging = false }) files key refl refl refl with_text-IsValid
      one_entry-Writable few_entries (whole, saved)

-- The log is asked for at a path that does not open.
abbrev logged : Options
logged = record default_options { aof_path = codes "/x" }

shut_down-unlogged_example :
    let p = boot logged clocks stream none false none in
    (p ≡ boot logged clocks stream none false (some []))
    × ((shut_down disk 5 7 (record p { store = with_text }) files).file
        ≡ some (image (snapshot 5 7 with_text)))
shut_down-unlogged_example =
    shut_down-unlogged logged clocks stream none none (some []) disk 5 7 with_text files
      (λ e. absurd (cc (e))) (whole, saved)

-- A start from a log of one command, and two requests that it serves.
abbrev del_request : Request
del_request = record {
  now = 5;
  name = codes "DEL";
  args = codes "k" ∷ [];
  answers = wrote 2 ∷ interrupted ∷ wrote 100 ∷ [];
  sync = true;
}

abbrev set_request : Request
set_request = record {
  now = 7;
  name = codes "SET";
  args = codes "k" ∷ codes "v" ∷ [];
  answers = wrote 100 ∷ [];
  sync = true;
}

abbrev requests : List Request
requests = del_request ∷ set_request ∷ []

abbrev earlier : List (List Bytes)
earlier = set_command ∷ []

requests-IsDurable : IsDurable requests (opened logged clocks stream (some (log_of earlier)) none)
unfolding append write_all encode to_string decimal decimal_fuel count_items bulk_items dispatch run
    command_of do_del do_set to_upper str_eq dispatch_logged
requests-IsDurable = (refl, (refl, tt))

boot-serve_all_example :
    let p = opened logged clocks stream (some (log_of earlier)) none in
    let s = (serve_all requests p).store in
    let s' = (boot logged clocks stream (some (serve_all requests p).file) true none).store in
    IsValid s'
    × ((t t' : ℕ) (q : Bytes)
        → 7 ≤ t
        → length (earlier ++ logged_of requests p.store) ≤ t'
        → view t' q s' ≡ view t q s)
unfolding command_of to_upper str_eq
boot-serve_all_example =
    boot-serve_all logged clocks clocks stream stream earlier (some (log_of earlier)) none none
      requests (λ e. absurd (cc (e))) refl refl (set_command-IsCommand, tt) (refl, tt)
      (del_command-IsCommand, (set_command-IsCommand, tt)) (refl, (refl, tt)) (λ i. omega arith)
      (λ i. omega arith) (omega arith, (omega arith, tt)) requests-IsDurable

-- A client that sends two commands in two pieces, and reads its replies byte by byte.
abbrev cut_bytes : List Bytes
cut_bytes = take 5 sent_bytes ∷ drop 5 sent_bytes ∷ []

handle_client-restart_example :
    let s = (boot logged clocks stream (some (log_of earlier)) true none).store in
    let c = handle_client (λ sent n. 1) (λ i. i + 5) cut_bytes [] (connected_to s) in
    let left = earlier ++ c.log in
    let s' = (boot logged clocks stream (some (log_of left)) true none).store in
    IsValid s'
    × ((t t' : ℕ) (q : Bytes) → 7 ≤ t → length left ≤ t' → view t' q s' ≡ view t q c.store)
unfolding command_of to_upper str_eq
handle_client-restart_example =
    handle_client-restart logged clocks clocks stream stream earlier
      (set_command ∷ del_command ∷ []) (some (log_of earlier)) none none (λ sent n. 1) (λ i. i + 5)
      cut_bytes (λ e. absurd (cc (e))) refl refl (set_command-IsCommand, tt) (refl, tt)
      (set_command-IsCommand, (del_command-IsCommand, tt)) (refl, (refl, tt)) (λ i. omega arith)
      (λ i. omega arith) (λ i. omega arith) (omega arith) byte_by_byte cut_pieces
