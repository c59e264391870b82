-- ===== src/Aof/Logging.antt =====
-- `Dispatch` of src/server/dispatcher.cpp with a log: a command that it logs goes to `Append` of
-- src/server/aof.cpp before the reply, and the result of `Append` is dropped.
use redis_cpp.Base.{
  ℕ, ◌≤◌, ◌≡◌, refl, sym, ◌∙◌, ap, Bool, true, false, List, [], ◌∷◌, ◌++◌, append-nil, Bytes, All,
}
use mathlib.Core.List.{append_assoc}
use redis_cpp.Resp.RoundTrip.{wire}
use redis_cpp.Store.{Store}
use redis_cpp.Dispatcher.{dispatch}
use redis_cpp.Aof.{Answer, append}
use redis_cpp.Aof.Replay.{log_of}
use redis_cpp.Aof.Appending.{append-whole}

-- A command, the instant at which it runs, and the answers of `::write` and `::fsync` to its Append.
pub record Request : Type 0 where
  pub now : ℕ
  pub name : Bytes
  pub args : List Bytes
  pub answers : List Answer
  pub sync : Bool

-- The store and the bytes of the log.
pub record Served : Type 0 where
  pub store : Store
  pub file : Bytes

abbrev pub append_if : Bool → Request → Bytes → Bool × Bytes
append_if false r file = (true, file)
append_if true r file = append true r.answers r.sync (r.name ∷ r.args) file

unfoldable pub dispatch_logged : Request → Served → Served
dispatch_logged r p =
    let o = dispatch r.now r.name r.args p.store in
    record { store = o.store; file = (append_if o.logged r p.file).1 }

unfoldable pub serve_all : List Request → Served → Served
serve_all [] p = p
serve_all (r ∷ rs) p = serve_all rs (dispatch_logged r p)

-- Every Append of the run returns true.
abbrev pub IsDurable : List Request → Served → Type 0
IsDurable [] p = Unit
IsDurable (r ∷ rs) p =
    ((append_if (dispatch r.now r.name r.args p.store).logged r p.file).0 ≡ true)
    × IsDurable rs (dispatch_logged r p)

abbrev pub consed : Bool → List Bytes → List (List Bytes) → List (List Bytes)
consed true args commands = args ∷ commands
consed false args commands = commands

-- The commands of a run that are logged, and the instant of the last request.
abbrev pub logged_of : List Request → Store → List (List Bytes)
logged_of [] s = []
logged_of (r ∷ rs) s =
    let o = dispatch r.now r.name r.args s in
    consed o.logged (r.name ∷ r.args) (logged_of rs o.store)

abbrev pub last_instant : ℕ → List Request → ℕ
last_instant now [] = now
last_instant now (r ∷ rs) = last_instant r.now rs

-- The clock does not run backwards.
abbrev pub IsOrdered : ℕ → List Request → Type 0
IsOrdered now [] = Unit
IsOrdered now (r ∷ rs) = (now ≤ r.now) × IsOrdered r.now rs

appended :
    (logged : Bool) (r : Request) (file : Bytes) (commands : List (List Bytes))
    → (append_if logged r file).0 ≡ true
    → (append_if logged r file).1 ++ log_of commands
      ≡ file ++ log_of (consed logged (r.name ∷ r.args) commands)
appended false r file commands h = refl
appended true r file commands h =
    ap (λ (f : Bytes). f ++ log_of commands)
      (append-whole (r.name ∷ r.args) file r.answers r.sync h)
    ∙ append_assoc file (wire (r.name ∷ r.args)) (log_of commands)

-- The log grows by the logged commands, in order.
pub serve_all-file :
    (rs : List Request) (p : Served)
    → IsDurable rs p
    → (serve_all rs p).file ≡ p.file ++ log_of (logged_of rs p.store)
unfolding serve_all dispatch_logged
serve_all-file [] p h = sym (append-nil p.file)
serve_all-file (r ∷ rs) p (h, hs) =
    let o = dispatch r.now r.name r.args p.store in
    serve_all-file rs (dispatch_logged r p) hs ∙ appended o.logged r p.file (logged_of rs o.store) h

consed-All :
    (P : List Bytes → Type 0) (logged : Bool) (args : List Bytes) (commands : List (List Bytes))
    → P args
    → All P commands
    → All P (consed logged args commands)
consed-All P true args commands h hs = (h, hs)
consed-All P false args commands h hs = hs

pub logged_of-All :
    (P : List Bytes → Type 0) (rs : List Request) (s : Store)
    → All (λ r. P (r.name ∷ r.args)) rs
    → All P (logged_of rs s)
logged_of-All P [] s h = tt
logged_of-All P (r ∷ rs) s (h, hs) =
    let o = dispatch r.now r.name r.args s in
    consed-All P o.logged (r.name ∷ r.args) (logged_of rs o.store) h (logged_of-All P rs o.store hs)
