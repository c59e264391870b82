-- ===== src/Aof/Recovery.antt =====
-- The commands of a log, run again at other instants, restore what the store showed.
use redis_cpp.Base.{
  ℕ, suc, ◌+◌, ◌≤◌, ◌≡◌, refl, inl, inr, true, false, List, [], ◌∷◌, ◌++◌, ap, sym, ◌∙◌, arith,
  length, Bytes, Bool-cases, All,
}
use redis_cpp.Store.{Store}
use redis_cpp.Store.View.{SameView-refl}
use redis_cpp.Store.Alike.{Alike, Alike-later, Alike-SameView}
use redis_cpp.Dispatcher.{dispatch, command_of}
use redis_cpp.Dispatcher.Replies.{to_upper}
use redis_cpp.Dispatcher.HandlerTwins.{is_timeless}
use redis_cpp.Dispatcher.Sameness.{dispatch-Twin}
use redis_cpp.Dispatcher.EveryCommand.{dispatch-Effect}
use redis_cpp.Aof.{dispatch_args}
use mathlib.Core.List.{append_assoc}
use redis_cpp.Resp.RoundTrip.{wire}
use redis_cpp.Aof.Replay.{log_of, run_all}
use redis_cpp.Aof.Logging.{
  Request, Served, dispatch_logged, serve_all, logged_of, last_instant, IsOrdered,
}

-- A command that sets no deadline.
abbrev pub IsTimeless : List Bytes → Type 0
IsTimeless [] = Unit
IsTimeless (name ∷ args) = is_timeless (command_of (to_upper name)) args ≡ true

abbrev pub IsMonotone : (ℕ → ℕ) → Type 0
IsMonotone clock = (i : ℕ) → clock i ≤ clock (suc i)

-- A command, run on two stores that show the same.
dispatch_args-Alike :
    (now now' n n' : ℕ) (args : List Bytes) (s s' : Store)
    → now ≤ n
    → now' ≤ n'
    → IsTimeless args
    → Alike false now now' s s'
    → Alike false n n' (dispatch_args n args s) (dispatch_args n' args s')
dispatch_args-Alike now now' n n' [] s s' h h' quiet a = Alike-later a h h'
dispatch_args-Alike now now' n n' (name ∷ args) s s' h h' quiet a =
    (dispatch-Twin false n n' name args s s' tt (Alike-later a h h') quiet).stores

-- The index behind a run of commands that starts at `i`.
abbrev pub after : ℕ → List (List Bytes) → ℕ
after i [] = i
after i (args ∷ commands) = after (suc i) commands

pub after-length : (i : ℕ) (commands : List (List Bytes)) → after i commands ≡ i + length commands
after-length i [] = omega arith
after-length i (args ∷ commands) = omega (arith, after-length (suc i) commands)

-- A run of a log at the instants of two clocks.
pub run_all-Alike :
    (commands : List (List Bytes)) (i : ℕ) (clock clock' : ℕ → ℕ) (now now' : ℕ) (s s' : Store)
    → IsMonotone clock
    → IsMonotone clock'
    → now ≤ clock i
    → now' ≤ clock' i
    → All IsTimeless commands
    → Alike false now now' s s'
    → Alike false
        (clock (after i commands))
        (clock' (after i commands))
        (run_all i clock commands s)
        (run_all i clock' commands s')
run_all-Alike [] i clock clock' now now' s s' m m' h h' quiet a = Alike-later a h h'
run_all-Alike (args ∷ commands) i clock clock' now now' s s' m m' h h' (q, qs) a =
    run_all-Alike commands (suc i) clock clock' (clock i) (clock' i) _ _ m m' (m i) (m' i) qs
      (dispatch_args-Alike now now' (clock i) (clock' i) args s s' h h' q a)

abbrev pub AreTimeless : List Request → Type 0
AreTimeless = All (λ r. IsTimeless (r.name ∷ r.args))

-- A run of requests, and a later run of those of them that were logged.
pub serve_all-Alike :
    (rs : List Request) (i : ℕ) (clock : ℕ → ℕ) (now now' : ℕ) (p : Served) (s' : Store)
    → IsMonotone clock
    → now' ≤ clock i
    → IsOrdered now rs
    → AreTimeless rs
    → Alike false now now' p.store s'
    → Alike false
        (last_instant now rs)
        (clock (after i (logged_of rs p.store)))
        (serve_all rs p).store
        (run_all i clock (logged_of rs p.store) s')
unfolding serve_all dispatch_logged
serve_all-Alike [] i clock now now' p s' m h ordered quiet a = Alike-later a (omega arith) h
serve_all-Alike (r ∷ rs) i clock now now' p s' m h (o, os) (q, qs) a =
    let out = dispatch r.now r.name r.args p.store in
    let p' = dispatch_logged r p in
    elim (Bool-cases out.logged) [
      | inl logged ↦
          let twin =
            dispatch_args-Alike now now' r.now (clock i) (r.name ∷ r.args) p.store s' o h q a in
          rw logged (serve_all-Alike rs (suc i) clock r.now (clock i) p' _ m (m i) os qs twin)
      | inr unlogged ↦
          let same = rw unlogged at (dispatch-Effect r.now r.name r.args p.store a.valid).quiet in
          let quiet =
            Alike-SameView (Alike-later a o (omega arith)) same (SameView-refl now' s' a.valid') in
          rw unlogged (serve_all-Alike rs i clock r.now now' p' s' m h os qs quiet)
    ]

pub run_all-append :
    (i : ℕ) (clock : ℕ → ℕ) (commands more : List (List Bytes)) (s : Store)
    → run_all i clock (commands ++ more) s
      ≡ run_all (after i commands) clock more (run_all i clock commands s)
run_all-append i clock [] more s = refl
run_all-append i clock (args ∷ commands) more s =
    run_all-append (suc i) clock commands more (dispatch_args (clock i) args s)

pub log_of-concat :
    (commands more : List (List Bytes)) → log_of (commands ++ more) ≡ log_of commands ++ log_of more
log_of-concat [] more = refl
log_of-concat (args ∷ commands) more =
    ap (λ (l : Bytes). wire args ++ l) (log_of-concat commands more)
    ∙ sym (append_assoc (wire args) (log_of commands) (log_of more))
