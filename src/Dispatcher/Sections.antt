-- ===== src/Dispatcher/Sections.antt =====
-- SET with EX in src/server/dispatcher.cpp is two calls to the store, each with the lock for itself;
-- between them the store is open to the other clients.
use redis_cpp.Base.{
  ℕ, ◌^◌, ◌<◌, ◌≡◌, refl, ◌∙◌, none, some, List, [], ◌∷◌, ◌++◌, ltb, if◌then◌else◌, codes, Bytes,
  str_eq, str_eq_refl,
}
use redis_cpp.Base.Int.{ℤ, pos}
use redis_cpp.Store.{Store, is_expired}
use redis_cpp.Store.Invariant.{IsValid}
use redis_cpp.Store.View.{view, Writes-view}
use redis_cpp.Store.Strings.{set-Writes}
use redis_cpp.Store.Writes
use redis_cpp.Store.Writes.{string_value}
use redis_cpp.Store.Expiry.{end_of_life, expiring, expires-at, view-expire}
use redis_cpp.Dispatcher.{dispatch, run, command_of}
use redis_cpp.Dispatcher.Handlers.{do_set}
use redis_cpp.Dispatcher.Replies.{to_upper}

-- `timed` are the keys, with their seconds, that a thread has set and is yet to give a deadline.
pub record Sections : Type 0 where
  pub store : Store
  pub timed : List (Bytes × ℤ)

pub data Step (s : Sections) : Sections → Type 0 where
  -- a command that is one section
  runs :
      (now : ℕ) (name : Bytes) (args : List Bytes)
      → Step s (record s { store = (dispatch now name args s.store).store })
  -- `store.Set(args[1], args[2])`, with the call of `Expire` behind it
  sets :
      (key value : Bytes) (seconds : ℤ)
      → Step s (record s { store = Writes.set key value s.store; timed = (key, seconds) ∷ s.timed })
  -- `store.Expire(args[1], seconds)`
  expires :
      (now : ℕ) (before : List (Bytes × ℤ)) (key : Bytes) (seconds : ℤ) (after : List (Bytes × ℤ))
      → s.timed ≡ before ++ ((key, seconds) ∷ after)
      → Step s
          (record s { store = (Writes.expire now key seconds s.store).1; timed = before ++ after })

pub data Run (s : Sections) : Sections → Type 0 where
  here : Run s s
  next : {t u : Sections} → Run s t → Step t u → Run s u

-- What SET leaves in view.
view-set :
    (t : ℕ) (key value : Bytes) (s : Store)
    → IsValid s
    → s.max_memory_bytes ≡ 0
    → view t key (Writes.set key value s) ≡ some (string_value value)
unfolding is_expired
view-set t key value s valid unlimited =
    rw (Writes-view (set-Writes key value s valid) unlimited t key, str_eq_refl key) refl

-- Both sections of SET with EX, and what they leave in view.
unfoldable pub set_ex : ℕ → Bytes → Bytes → ℤ → Store → Store
set_ex now key value seconds s = (Writes.expire now key seconds (Writes.set key value s)).1

pub view-set_ex :
    (now t : ℕ) (key value : Bytes) (n : ℕ) (s : Store)
    → IsValid s
    → s.max_memory_bytes ≡ 0
    → 0 < n
    → end_of_life now n < 2 ^ 63
    → view t key (set_ex now key value (pos n) s)
      ≡ (if ltb t (end_of_life now n) then some (expiring now n (string_value value)) else none)
unfolding set_ex
view-set_ex now t key value n s valid unlimited positive fits =
    view-expire now t key n (Writes.set key value s) (string_value value)
      (set-Writes key value s valid).valid (view-set now key value s valid unlimited) positive fits

-- From a well-formed store with no memory budget there are steps of two clients, a SET of a key
-- with EX and a plain SET of it, by which the key is left with the value of the plain SET and
-- with the deadline of the other. With no step between the two calls of the first SET the key is
-- left with no deadline, or with the value of the first.
pub set_interrupted :
    (s : Sections) (now : ℕ) (key first second : Bytes) (n : ℕ)
    → IsValid s.store
    → s.store.max_memory_bytes ≡ 0
    → 0 < n
    → end_of_life now n < 2 ^ 63
    → (t : Sections) × Run s t
      × (t.timed ≡ s.timed)
      × ((i : ℕ)
          → view i key t.store ≡ (
              if ltb i (end_of_life now n)
              then some (expiring now n (string_value second))
              else none))
      × ((i : ℕ)
          → view i key (Writes.set key second (set_ex now key first (pos n) s.store))
            ≡ some (string_value second))
      × ((i : ℕ)
          → view i key (set_ex now key first (pos n) (Writes.set key second s.store)) ≡ (
              if ltb i (end_of_life now n)
              then some (expiring now n (string_value first))
              else none))
unfolding dispatch run command_of do_set to_upper str_eq set_ex
set_interrupted s now key first second n valid unlimited positive fits =
    let w₁ = set-Writes key first s.store valid in
    let w₂ = set-Writes key second s.store valid in
    let u =
      expires-at now key n _ (string_value first) w₁.valid
        (view-set now key first s.store valid unlimited) positive in
    let begun = next here (sets key first (pos n)) in
    let between = next begun (runs now (codes "SET") (key ∷ second ∷ [])) in
    let done = next between (expires now [] key (pos n) s.timed refl) in
    (
      _,
      done,
      refl,
      λ i. view-set_ex now i key second n _ w₁.valid (w₁.budget ∙ unlimited) positive fits,
      λ i. view-set i key second _ u.valid (u.budget ∙ w₁.budget ∙ unlimited),
      λ i. view-set_ex now i key first n _ w₂.valid (w₂.budget ∙ unlimited) positive fits,
    )
