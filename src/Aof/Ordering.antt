-- ===== src/Aof/Ordering.antt =====
-- Clients of src/server/dispatcher.cpp that share a log: a command changes the store and is handed
-- to `Append` of src/server/aof.cpp afterwards, with no lock around the two.
use mathlib.Core.List.{append_assoc}
use redis_cpp.Base.{
  ℕ, Bool, true, false, ◌≡◌, refl, ◌∙◌, List, [], ◌∷◌, ◌++◌, codes, Bytes, str_eq, str_eq_refl,
}
use redis_cpp.Store.{Store, success}
use redis_cpp.Store.Invariant.{IsValid}
use redis_cpp.Store.Strings.{set-Writes, get-set}
use redis_cpp.Store.Reads
use redis_cpp.Store.Writes
use redis_cpp.Dispatcher.{dispatch, command_of, run}
use redis_cpp.Dispatcher.Replies.{to_upper}
use redis_cpp.Dispatcher.Handlers.{do_set}
use redis_cpp.Aof.Replay.{run_all}

-- `waiting` are the commands that a thread has run and is yet to append.
pub record Logged : Type 0 where
  pub store : Store
  pub log : List (List Bytes)
  pub waiting : List (List Bytes)

abbrev pub to_log : Bool → List Bytes → List (List Bytes) → List (List Bytes)
to_log true args waiting = args ∷ waiting
to_log false args waiting = waiting

pub data Step (s : Logged) : Logged → Type 0 where
  executes :
      (now : ℕ) (name : Bytes) (args : List Bytes)
      → Step s (record s {
        store = (dispatch now name args s.store).store;
        waiting = to_log (dispatch now name args s.store).logged (name ∷ args) s.waiting;
      })
  appends :
      (before : List (List Bytes)) (args : List Bytes) (after : List (List Bytes))
      → s.waiting ≡ before ++ (args ∷ after)
      → Step s (record s { log = s.log ++ (args ∷ []); waiting = before ++ after })

pub data Run (s : Logged) : Logged → Type 0 where
  here : Run s s
  next : {t u : Logged} → Run s t → Step t u → Run s u

abbrev pub set_command : Bytes → Bytes → List Bytes
set_command key value = codes "SET" ∷ key ∷ value ∷ []

-- GET behind a SET that itself stands behind a SET of the key.
get-set-set :
    (now : ℕ) (key first second : Bytes) (s : Store)
    → IsValid s
    → s.max_memory_bytes ≡ 0
    → (Reads.get now key (Writes.set key second (Writes.set key first s))).0 ≡ success second
get-set-set now key first second s valid unlimited =
    let w = set-Writes key first s valid in
    get-set now key second key (Writes.set key first s) w.valid (w.budget ∙ unlimited)
    ∙ rw (str_eq_refl key) refl

run_all-sets :
    (i : ℕ) (clock : ℕ → ℕ) (key first second : Bytes) (s : Store)
    → run_all i clock (set_command key first ∷ set_command key second ∷ []) s
      ≡ Writes.set key second (Writes.set key first s)
unfolding dispatch run command_of do_set to_upper str_eq
run_all-sets i clock key first second s = refl

-- From any state of a well-formed store with no memory budget and a log, there are steps of two
-- clients that set a key by which the store is left with the second value and the log with the
-- two commands in the other order, such that a replay of these leaves any such store with the
-- first value.
pub log_reordered :
    (s : Logged) (r : Store) (now i : ℕ) (clock : ℕ → ℕ) (key first second : Bytes)
    → IsValid s.store
    → s.store.max_memory_bytes ≡ 0
    → IsValid r
    → r.max_memory_bytes ≡ 0
    → (t : Logged) × Run s t
      × (t.waiting ≡ s.waiting)
      × ((Reads.get now key t.store).0 ≡ success second)
      × (t.log ≡ s.log ++ (set_command key second ∷ set_command key first ∷ []))
      × ((Reads.get now key
            (run_all i clock (set_command key second ∷ set_command key first ∷ []) r)).0
          ≡ success first)
unfolding dispatch run command_of do_set to_upper str_eq
log_reordered s r now i clock key first second valid unlimited valid' unlimited' =
    let r₁ = next here (executes now (codes "SET") (key ∷ first ∷ [])) in
    let r₂ = next r₁ (executes now (codes "SET") (key ∷ second ∷ [])) in
    let r₃ =
      next r₂ (appends [] (set_command key second) (set_command key first ∷ s.waiting) refl) in
    let done = next r₃ (appends [] (set_command key first) s.waiting refl) in
    (
      _,
      done,
      refl,
      get-set-set now key first second s.store valid unlimited,
      append_assoc s.log (set_command key second ∷ []) (set_command key first ∷ []),
      rw (run_all-sets i clock key second first r)
          (get-set-set now key second first r valid' unlimited'),
    )
