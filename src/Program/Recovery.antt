-- ===== src/Program/Recovery.antt =====
-- `main` of src/main.cpp with a log: a process that serves commands, and the next start.
use redis_cpp.Base.{
  ℕ, ◌≤◌, ◌≡◌, ◌≢◌, refl, sym, ◌∙◌, ap, true, false, Option, none, some, List, [], ◌∷◌, ◌++◌, arith,
  length, Bytes, All, All-append, length-append,
}
use redis_cpp.HashTable.Invariant.{get-empty}
use redis_cpp.Value.{Value}
use redis_cpp.Store.{new_store}
use redis_cpp.Store.Invariant.{IsValid, peek, new_store-IsValid}
use redis_cpp.Store.View.{view}
use redis_cpp.Store.Alike.{Alike}
use redis_cpp.Resp.RoundTrip.{IsCommand}
use redis_cpp.Aof.{load_aof}
use redis_cpp.Aof.Replay.{log_of, run_all}
use redis_cpp.Aof.Appending.{Loads-log_of}
use redis_cpp.Aof.Logging.{
  Request, Served, serve_all, IsDurable, logged_of, last_instant, IsOrdered, serve_all-file,
  logged_of-All,
}
use redis_cpp.Aof.Recovery.{
  IsTimeless, AreTimeless, IsMonotone, after, after-length, run_all-Alike, serve_all-Alike,
  run_all-append, log_of-concat,
}
use redis_cpp.Program.{Options, Clocks, load, boot}

-- What the file of a log holds when main starts; without a file it is as if it held nothing.
abbrev pub Holds : List (List Bytes) → Option Bytes → Type 0
Holds commands none = commands ≡ []
Holds commands (some file) = file ≡ log_of commands

view-new_store : (t : ℕ) (q : Bytes) (stream : ℕ → ℕ → ℕ) → view t q (new_store stream) ≡ none
unfolding view peek
view-new_store t q stream = rw (get-empty {V = Value} q) refl

new_store-Alike :
    (stream stream' : ℕ → ℕ → ℕ) → Alike false 0 0 (new_store stream) (new_store stream')
new_store-Alike stream stream' = record {
  valid = new_store-IsValid stream;
  valid' = new_store-IsValid stream';
  unlimited = refl;
  unlimited' = refl;
  views = λ t t' q l l' same. view-new_store t q stream ∙ sym (view-new_store t' q stream');
}

-- What main has in store once it has replayed its log.
pub boot-replayed :
    (o : Options) (clocks : Clocks) (stream : ℕ → ℕ → ℕ) (commands : List (List Bytes))
    (log snapshot : Option Bytes)
    → o.aof_path ≢ []
    → o.max_memory_bytes ≡ 0
    → All IsCommand commands
    → Holds commands log
    → (boot o clocks stream log true snapshot).store
      ≡ run_all 0 clocks.replayed commands (new_store stream)
unfolding boot load_aof
boot-replayed o clocks stream commands log snapshot aof free ok holds =
    rw free (go o.aof_path log aof holds)
  where
    go :
        (path : Bytes) (log' : Option Bytes)
        → path ≢ []
        → Holds commands log'
        → (load clocks path log' true snapshot (new_store stream)).store
          ≡ run_all 0 clocks.replayed commands (new_store stream)
    go [] log' ne h = absurd (ne refl)
    go (c ∷ path) none ne h = rw h refl
    go (c ∷ path) (some file) ne h =
        rw h (ap (λ r. r.1) (Loads-log_of commands ok clocks.replayed (new_store stream)))

abbrev bytes_of : Option Bytes → Bytes
bytes_of none = []
bytes_of (some file) = file

Holds-bytes :
    (commands : List (List Bytes)) (log : Option Bytes)
    → Holds commands log
    → bytes_of log ≡ log_of commands
Holds-bytes commands none h = sym (ap log_of h)
Holds-bytes commands (some file) h = h

-- A process that has started with a log, which it has open for appending.
abbrev pub opened : Options → Clocks → (ℕ → ℕ → ℕ) → Option Bytes → Option Bytes → Served
opened o clocks stream log snapshot = record {
  store = (boot o clocks stream log true snapshot).store;
  file = bytes_of log;
}

-- The log of such a process, once it has served some requests.
log_left :
    (rs : List Request) (p : Served) (commands : List (List Bytes))
    → p.file ≡ log_of commands
    → IsDurable rs p
    → (serve_all rs p).file ≡ log_of (commands ++ logged_of rs p.store)
log_left rs p commands e durable =
    serve_all-file rs p durable
    ∙ ap (λ (f : Bytes). f ++ log_of (logged_of rs p.store)) e
    ∙ sym (log_of-concat commands (logged_of rs p.store))

pub after-zero : (commands : List (List Bytes)) → after 0 commands ≡ length commands
after-zero commands = omega (arith, after-length 0 commands)

-- The process and one that starts from its log.
pub restarted-Alike :
    (commands : List (List Bytes)) (clock clock' : ℕ → ℕ) (stream stream' : ℕ → ℕ → ℕ)
    (rs : List Request) (p : Served)
    → p.store ≡ run_all 0 clock commands (new_store stream)
    → All IsTimeless commands
    → AreTimeless rs
    → IsMonotone clock
    → IsMonotone clock'
    → IsOrdered (clock (length commands)) rs
    → Alike false
        (last_instant (clock (length commands)) rs)
        (clock' (length (commands ++ logged_of rs p.store)))
        (serve_all rs p).store
        (run_all 0 clock' (commands ++ logged_of rs p.store) (new_store stream'))
restarted-Alike commands clock clock' stream stream' rs p e quiet quiet' m m' ordered =
    let logged = logged_of rs p.store in
    let first =
      run_all-Alike commands 0 clock clock' 0 0 (new_store stream) (new_store stream') m m'
        (omega arith) (omega arith) quiet (new_store-Alike stream stream') in
    let served =
      serve_all-Alike rs (after 0 commands) clock' (clock (length commands))
        (clock' (after 0 commands)) p (run_all 0 clock' commands (new_store stream')) m'
        (omega arith) ordered quiet' (rw (e, ← after-zero commands) first) in
    let ends : after (after 0 commands) logged ≡ length (commands ++ logged) = omega (
      arith,
      after-length (after 0 commands) logged,
      after-zero commands,
      length-append commands logged,
    ) in
    rw (run_all-append 0 clock' commands logged (new_store stream'), ← ends) served

-- In AOF mode and with no memory budget, a process that has started from a log of commands serves
-- requests, none of which sets a deadline, at instants in order, and each Append returns true.
-- The next start from the log that it leaves has a well-formed store that shows, from the last
-- replayed command on, what the store of the process shows from its last request on.
pub boot-serve_all :
    (o : Options) (clocks clocks' : Clocks) (stream stream' : ℕ → ℕ → ℕ)
    (commands : List (List Bytes)) (log snapshot snapshot' : Option Bytes) (rs : List Request)
    → o.aof_path ≢ []
    → o.max_memory_bytes ≡ 0
    → Holds commands log
    → All IsCommand commands
    → All IsTimeless commands
    → All (λ r. IsCommand (r.name ∷ r.args)) rs
    → AreTimeless rs
    → IsMonotone clocks.replayed
    → IsMonotone clocks'.replayed
    → IsOrdered (clocks.replayed (length commands)) rs
    → IsDurable rs (opened o clocks stream log snapshot)
    → let p = opened o clocks stream log snapshot in
      let s = (serve_all rs p).store in
      let s' = (boot o clocks' stream' (some (serve_all rs p).file) true snapshot').store in
      IsValid s'
      × ((t t' : ℕ) (q : Bytes)
          → last_instant (clocks.replayed (length commands)) rs ≤ t
          → clocks'.replayed (length (commands ++ logged_of rs p.store)) ≤ t'
          → view t' q s' ≡ view t q s)
boot-serve_all o clocks clocks' stream stream' commands log snapshot snapshot' rs aof free holds
      okay quiet okay' quiet' m m' ordered durable =
    let p = opened o clocks stream log snapshot in
    let all = commands ++ logged_of rs p.store in
    let left = log_left rs p commands (Holds-bytes commands log holds) durable in
    let again =
      boot-replayed o clocks' stream' all (some (serve_all rs p).file) snapshot' aof free
        (All-append IsCommand commands (logged_of rs p.store) okay
          (logged_of-All IsCommand rs p.store okay'))
        left in
    let a =
      restarted-Alike commands clocks.replayed clocks'.replayed stream stream' rs p
        (boot-replayed o clocks stream commands log snapshot aof free okay holds) quiet quiet' m m'
        ordered in
    rw again (a.valid', λ t t' q l l'. sym (a.views t t' q l l' tt))
