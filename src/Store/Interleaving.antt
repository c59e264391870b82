-- ===== src/Store/Interleaving.antt =====
-- Reads, sweeps and other sections of src/store/store.cpp, interleaved in any order.
use redis_cpp.Base.{
  ℕ, ◌≤◌, ◌≡◌, refl, inl, inr, Bool, true, false, ◌||◌, arith, if◌then◌else◌, Bytes, Bool-cases,
  Option-cases,
}
use redis_cpp.HashTable
use redis_cpp.Value.{ValueType, Value, type_eq}
use redis_cpp.Store.{Result, Store, is_expired, delete_if_expired}
use redis_cpp.Store.Invariant.{IsValid}
use redis_cpp.Store.View.{
  SameView, SameView-refl, SameView-trans, touch-SameView, delete_if_expired-SameView,
  delete_all_expired-SameView,
}
use redis_cpp.Store.Reads.{read_entry}
use redis_cpp.Store.Concurrent.{
  look, Shared, Step, looks, lists, counts, forgets, wakes, leaves, collects, deletes, destroys,
  changes, Run, here, next,
}

-- A read is its two sections, one right behind the other.
pub read_entry-look :
    {A : Type 0} (ty : ValueType) (absent : Result A) (answer : Value → Result A) (now : ℕ)
    (key : Bytes) (s : Store)
    → (read_entry ty absent answer now key s).1 ≡ (
        if (look ty now key s).0
        then (delete_if_expired now key (look ty now key s).1).1
        else (look ty now key s).1)
unfolding read_entry look
read_entry-look ty absent answer now key s = elim (Option-cases (HashTable.get key s.table)) [
  | inl e ↦ rw (read_entry, look, e) refl
  | inr (v, e) ↦ elim (Bool-cases (is_expired now v)) [
    | inl old ↦ rw (read_entry, look, e, old) refl
    | inr alive ↦ elim (Bool-cases (type_eq v.type ty)) [
      | inl right ↦ rw (read_entry, look, e, alive, right) refl
      | inr wrong ↦ rw (read_entry, look, e, alive, wrong) refl
    ]
  ]
]

look-SameView :
    (ty : ValueType) (now : ℕ) (key : Bytes) (s : Store)
    → IsValid s
    → SameView now s (look ty now key s).1
unfolding look
look-SameView ty now key s valid = elim (Option-cases (HashTable.get key s.table)) [
  | inl e ↦ rw (look, e) (SameView-refl now s valid)
  | inr (v, e) ↦ elim (Bool-cases (is_expired now v)) [
    | inl old ↦ rw (look, e, old) (SameView-refl now s valid)
    | inr alive ↦ elim (Bool-cases (type_eq v.type ty)) [
      | inl right ↦ rw (look, e, alive, right) (touch-SameView now key v s valid e)
      | inr wrong ↦ rw (look, e, alive, wrong) (SameView-refl now s valid)
    ]
  ]
]

SameView-later :
    {now later : ℕ} {s s' : Store} → SameView now s s' → now ≤ later → SameView later s s'
SameView-later same h = record {
  valid = same.valid;
  views = λ t q k. same.views t q (omega (arith, h, k));
  budget = same.budget;
}

-- What a step, or a run, may show from its last instant on.
abbrev pub Shows : Bool → Shared → Shared → Type 0
Shows true s t = IsValid t.store × (s.time ≤ t.time)
Shows false s t = SameView t.time s.store t.store × (s.time ≤ t.time)

Step-Shows : {s t : Shared} {b : Bool} → Step s b t → IsValid s.store → Shows b s t
Step-Shows {s} (looks ty key now h) valid = (look-SameView ty now key s.store valid, h)
Step-Shows {s} (lists now h) valid = (SameView-refl now s.store valid, h)
Step-Shows {s} (counts keys now h) valid = (SameView-refl now s.store valid, h)
Step-Shows {s} (forgets before key keys after now e h) valid =
    (delete_if_expired-SameView now key s.store valid, h)
Step-Shows {s} (wakes a f) valid = (SameView-refl s.time s.store valid, omega arith)
Step-Shows {s} (leaves a f) valid = (SameView-refl s.time s.store valid, omega arith)
Step-Shows {s} (collects now a h) valid = (SameView-refl now s.store valid, h)
Step-Shows {s} (deletes keys now a h) valid =
    (delete_all_expired-SameView now keys s.store valid, h)
Step-Shows {s} destroys valid = (SameView-refl s.time s.store valid, omega arith)
Step-Shows {s} (changes f now keeps h) valid = (keeps s.store valid, h)

Shows-IsValid : (s t : Shared) (b : Bool) → Shows b s t → IsValid t.store
Shows-IsValid s t true h = h.0
Shows-IsValid s t false h = h.0.valid

Shows-trans : (s t u : Shared) (b c : Bool) → Shows b s t → Shows c t u → Shows (b || c) s u
Shows-trans s t u true true h k = (k.0, omega (arith, h.1, k.1))
Shows-trans s t u true false h k = (k.0.valid, omega (arith, h.1, k.1))
Shows-trans s t u false true h k = (k.0, omega (arith, h.1, k.1))
Shows-trans s t u false false h k =
    (SameView-trans (SameView-later h.0 k.1) k.0, omega (arith, h.1, k.1))

-- Whatever the order in which reads and their deletions of expired keys, the two sections of a
-- sweep and sections of other operations follow each other, a well-formed store stays well
-- formed; and if no section of another operation is among them, the store shows the same as
-- before at every instant from the last reading of the clock on.
pub Run-Shows : (s t : Shared) (b : Bool) → IsValid s.store → Run s b t → Shows b s t
Run-Shows s _ _ valid here = (SameView-refl s.time s.store valid, omega arith)
Run-Shows s u _ valid (next {b} {c} {t} r st) =
    let h = Run-Shows s t b valid r in
    Shows-trans s t u b c h (Step-Shows st (Shows-IsValid s t b h))
