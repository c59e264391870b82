-- ===== src/Program/Serving.antt =====
-- `main` of src/main.cpp with a log, a client that it serves, and the next start.
use mathlib.Core.List.{append_assoc, flatten}
use native.Mathlib.Nat.{le_trans}
use redis_cpp.Base.{
  ℕ, suc, ◌≤◌, ◌≡◌, ◌≢◌, refl, sym, ◌∙◌, Bool, true, false, Option, some, List, [], ◌∷◌, ◌++◌,
  arith, length, append-nil, Bytes, All, All-append,
}
use redis_cpp.Resp.RoundTrip.{IsCommand}
use redis_cpp.Store.{Store}
use redis_cpp.Store.Invariant.{IsValid}
use redis_cpp.Store.View.{view}
use redis_cpp.Dispatcher.{dispatch}
use redis_cpp.Aof.Replay.{log_of}
use redis_cpp.Aof.Logging.{
  Request, serve_all, dispatch_logged, logged_of, consed, last_instant, IsOrdered, logged_of-All,
}
use redis_cpp.Aof.Recovery.{IsTimeless, AreTimeless, IsMonotone, after}
use redis_cpp.Server.{Kernel, Session, handle_client, logging}
use redis_cpp.Server.Sending.{IsOpen}
use redis_cpp.Server.Requests.{answered, answered_all, handle_client-answered}
use redis_cpp.Program.{Options, Clocks, boot}
use redis_cpp.Program.Recovery.{Holds, after-zero, boot-replayed, restarted-Alike}

-- A command of the session, as a request.
abbrev request_of : ℕ → List Bytes → Request
request_of now [] = record { now = now; name = []; args = []; answers = []; sync = true }
request_of now (name ∷ args) = record {
  now = now;
  name = name;
  args = args;
  answers = [];
  sync = true;
}

requests_of : ℕ → (ℕ → ℕ) → List (List Bytes) → List Request
requests_of i clock [] = []
requests_of i clock (args ∷ commands) =
    request_of (clock i) args ∷ requests_of (suc i) clock commands

requests_of-IsOrdered :
    (now i : ℕ) (clock : ℕ → ℕ) (commands : List (List Bytes))
    → IsMonotone clock
    → now ≤ clock i
    → IsOrdered now (requests_of i clock commands)
unfolding requests_of
requests_of-IsOrdered now i clock [] m h = tt
requests_of-IsOrdered now i clock ([] ∷ commands) m h =
    (h, requests_of-IsOrdered (clock i) (suc i) clock commands m (m i))
requests_of-IsOrdered now i clock ((name ∷ args) ∷ commands) m h =
    (h, requests_of-IsOrdered (clock i) (suc i) clock commands m (m i))

last_instant-le :
    (now i : ℕ) (clock : ℕ → ℕ) (commands : List (List Bytes))
    → IsMonotone clock
    → now ≤ clock i
    → last_instant now (requests_of i clock commands) ≤ clock (after i commands)
unfolding requests_of
last_instant-le now i clock [] m h = h
last_instant-le now i clock ([] ∷ commands) m h =
    last_instant-le (clock i) (suc i) clock commands m (m i)
last_instant-le now i clock ((name ∷ args) ∷ commands) m h =
    last_instant-le (clock i) (suc i) clock commands m (m i)

requests_of-AreTimeless :
    (i : ℕ) (clock : ℕ → ℕ) (commands : List (List Bytes))
    → All IsCommand commands
    → All IsTimeless commands
    → AreTimeless (requests_of i clock commands)
unfolding requests_of
requests_of-AreTimeless i clock [] ok h = tt
requests_of-AreTimeless i clock ([] ∷ commands) (o, ok) (h, hs) =
    absurd (omega (arith, o.some_args))
requests_of-AreTimeless i clock ((name ∷ args) ∷ commands) (o, ok) (h, hs) =
    (h, requests_of-AreTimeless (suc i) clock commands ok hs)

requests_of-AreCommands :
    (i : ℕ) (clock : ℕ → ℕ) (commands : List (List Bytes))
    → All IsCommand commands
    → All (λ r. IsCommand (r.name ∷ r.args)) (requests_of i clock commands)
unfolding requests_of
requests_of-AreCommands i clock [] ok = tt
requests_of-AreCommands i clock ([] ∷ commands) (o, ok) = absurd (omega (arith, o.some_args))
requests_of-AreCommands i clock ((name ∷ args) ∷ commands) (o, ok) =
    (o, requests_of-AreCommands (suc i) clock commands ok)

logging-consed :
    (logged : Bool) (args : List Bytes) (log more : List (List Bytes))
    → logging logged args log ++ more ≡ log ++ consed logged args more
logging-consed true args log more = append_assoc log (args ∷ []) more
logging-consed false args log more = refl

-- A session leaves the store of the run of its requests, and hands to the log what they log.
answered_all-serve_all :
    (clock : ℕ → ℕ) (commands : List (List Bytes)) (c : Session) (file : Bytes)
    → All IsCommand commands
    → let rs = requests_of c.served clock commands in
      let end = answered_all clock commands c in
      (end.store ≡ (serve_all rs (record { store = c.store; file = file })).store)
      × (end.log ≡ c.log ++ logged_of rs c.store)
unfolding requests_of serve_all dispatch_logged
answered_all-serve_all clock [] c file ok = (refl, sym (append-nil c.log))
answered_all-serve_all clock ([] ∷ commands) c file (o, ok) = absurd (omega (arith, o.some_args))
answered_all-serve_all clock ((name ∷ args) ∷ commands) c file (o, ok) =
    let r = request_of (clock c.served) (name ∷ args) in
    let p' = dispatch_logged r (record { store = c.store; file = file }) in
    let (same, log) =
      answered_all-serve_all clock commands (answered clock (name ∷ args) c) p'.file ok in
    (
      same,
      log
          ∙ logging-consed (dispatch (clock c.served) name args c.store).logged (name ∷ args) c.log
              _,
    )

-- A client that has just connected to a process.
abbrev pub connected_to : Store → Session
connected_to s = record { store = s; log = []; sent = []; served = 0 }

-- In AOF mode and with no memory budget, main has started from a log of commands, and
-- HandleClient receives the bytes of a row of commands, cut in any way, from a client that takes
-- every reply; none of the commands sets a deadline, and the clocks do not run backwards. If the
-- commands that the session hands to the log stand there behind the old ones, the next start has
-- a well-formed store that shows, from the last replayed command on, what the store of the
-- session shows from its last command on.
pub handle_client-restart :
    (o : Options) (clocks clocks' : Clocks) (stream stream' : ℕ → ℕ → ℕ)
    (commands requests : List (List Bytes)) (log snapshot snapshot' : Option Bytes)
    (accepted : Kernel) (clock : ℕ → ℕ) (pieces : List Bytes)
    → o.aof_path ≢ []
    → o.max_memory_bytes ≡ 0
    → Holds commands log
    → All IsCommand commands
    → All IsTimeless commands
    → All IsCommand requests
    → All IsTimeless requests
    → IsMonotone clocks.replayed
    → IsMonotone clocks'.replayed
    → IsMonotone clock
    → clocks.replayed (length commands) ≤ clock 0
    → IsOpen accepted
    → flatten pieces ≡ log_of requests
    → let s = (boot o clocks stream log true snapshot).store in
      let c = handle_client accepted clock pieces [] (connected_to s) in
      let left = commands ++ c.log in
      let s' = (boot o clocks' stream' (some (log_of left)) true snapshot').store in
      IsValid s'
      × ((t t' : ℕ) (q : Bytes)
          → clock (length requests) ≤ t
          → clocks'.replayed (length left) ≤ t'
          → view t' q s' ≡ view t q c.store)
handle_client-restart o clocks clocks' stream stream' commands requests log snapshot snapshot'
      accepted clock pieces aof free holds okay quiet okay' quiet' m m' n later open_socket e =
    let s = (boot o clocks stream log true snapshot).store in
    let rs = requests_of 0 clock requests in
    let (same, logged) = answered_all-serve_all clock requests (connected_to s) [] okay' in
    let all = commands ++ logged_of rs s in
    let fine =
      All-append IsCommand commands (logged_of rs s) okay
        (logged_of-All IsCommand rs s (requests_of-AreCommands 0 clock requests okay')) in
    let again =
      boot-replayed o clocks' stream' all (some (log_of all)) snapshot' aof free fine refl in
    let a =
      restarted-Alike commands clocks.replayed clocks'.replayed stream stream' rs
        (record { store = s; file = [] })
        (boot-replayed o clocks stream commands log snapshot aof free okay holds) quiet
        (requests_of-AreTimeless 0 clock requests okay' quiet') m m'
        (requests_of-IsOrdered (clocks.replayed (length commands)) 0 clock requests n later) in
    let ends : last_instant (clocks.replayed (length commands)) rs ≤ clock (length requests) =
      rw (after-zero requests) at
        (last_instant-le (clocks.replayed (length commands)) 0 clock requests n later) in
    rw
      (
        handle_client-answered accepted clock pieces requests (connected_to s) open_socket okay' e,
        logged,
        same,
        again,
      )
      (a.valid', λ t t' q l l'. sym (a.views t t' q (le_trans ends l) l' tt))
