-- ===== src/Store/Concurrent.antt =====
-- The lock sections of src/store/store.cpp, as steps that threads take in any order: a read looks
-- at an entry under a shared lock, and deletes it in a section of its own if it has expired
-- (`DeleteIfExpired`); the sweeper collects keys in one section and deletes in another.
use redis_cpp.Base.{
  ℕ, ◌≤◌, ◌≡◌, Bool, true, false, ◌||◌, none, some, List, [], ◌∷◌, ◌++◌, if◌then◌else◌, Bytes,
}
use redis_cpp.HashTable
use redis_cpp.Value.{ValueType, type_eq}
use redis_cpp.Store.{Store, is_expired, touch, delete_if_expired, delete_all_expired, expired_keys}
use redis_cpp.Store.Invariant.{IsValid}
use redis_cpp.Store.Reads.{exists_loop}

-- The section under the shared lock of a read: whether the entry has expired, and the store.
unfoldable pub look : ValueType → ℕ → Bytes → Store → Bool × Store
look ty now key s = elim (HashTable.get key s.table) [
  | none ↦ (false, s)
  | some v ↦
      if is_expired now v
      then (true, s)
      else if type_eq v.type ty
      then (false, touch key v s)
      else (false, s)
]

-- Where `SweeperRun` is: in its wait, in the first section of a sweep, between the two with the
-- keys it has collected, or behind its loop.
pub data Sweeper : Type 0 where
  asleep sweeping gone : Sweeper
  holding : List Bytes → Sweeper

-- `SweepExpired` returns if it has collected nothing.
abbrev pub collected : List Bytes → Sweeper
collected [] = asleep
collected (key ∷ keys) = holding (key ∷ keys)

-- `time` is the last instant at which the clock was read, and `readers` are the keys that each
-- reading thread is yet to delete.
pub record Shared : Type 0 where
  pub store : Store
  pub time : ℕ
  pub readers : List (List Bytes)
  pub sweeper : Sweeper
  pub stop_sweeper : Bool

abbrev pub noted : Bool → Bytes → List (List Bytes) → List (List Bytes)
noted true key readers = (key ∷ []) ∷ readers
noted false key readers = readers

-- The Boolean says whether the step is a section of an operation that changes the data.
pub data Step (s : Shared) : Bool → Shared → Type 0 where
  looks :
      (ty : ValueType) (key : Bytes) (now : ℕ)
      → s.time ≤ now
      → Step s false (record s {
        store = (look ty now key s.store).1;
        time = now;
        readers = noted (look ty now key s.store).0 key s.readers;
      })
  -- `Keys` and `Exists`
  lists :
      (now : ℕ)
      → s.time ≤ now
      → Step s false (record s {
        time = now;
        readers = expired_keys now (HashTable.entries s.store.table) ∷ s.readers;
      })
  counts :
      (keys : List Bytes) (now : ℕ)
      → s.time ≤ now
      → Step s false
          (record s { time = now; readers = (exists_loop now keys s.store).1 ∷ s.readers })
  -- `DeleteIfExpired`
  forgets :
      (before : List (List Bytes)) (key : Bytes) (keys : List Bytes) (after : List (List Bytes))
      (now : ℕ)
      → s.readers ≡ before ++ ((key ∷ keys) ∷ after)
      → s.time ≤ now
      → Step s false (record s {
        store = (delete_if_expired now key s.store).1;
        time = now;
        readers = before ++ (keys ∷ after);
      })
  -- `SweeperRun`
  wakes :
      s.sweeper ≡ asleep → s.stop_sweeper ≡ false → Step s false (record s { sweeper = sweeping })
  leaves : s.sweeper ≡ asleep → s.stop_sweeper ≡ true → Step s false (record s { sweeper = gone })
  collects :
      (now : ℕ)
      → s.sweeper ≡ sweeping
      → s.time ≤ now
      → Step s false (record s {
        time = now;
        sweeper = collected (expired_keys now (HashTable.entries s.store.table));
      })
  deletes :
      (keys : List Bytes) (now : ℕ)
      → s.sweeper ≡ holding keys
      → s.time ≤ now
      → Step s false
          (record s { store = delete_all_expired now keys s.store; time = now; sweeper = asleep })
  -- the destructor
  destroys : Step s false (record s { stop_sweeper = true })
  -- any other section
  changes :
      (f : Store → Store) (now : ℕ)
      → ((r : Store) → IsValid r → IsValid (f r))
      → s.time ≤ now
      → Step s true (record s { store = f s.store; time = now })

-- Whether a step of a run changed the data.
pub data Run (s : Shared) : Bool → Shared → Type 0 where
  here : Run s false s
  next : {b c : Bool} {t u : Shared} → Run s b t → Step t c u → Run s (b || c) u
