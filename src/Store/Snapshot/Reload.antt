-- ===== src/Store/Snapshot/Reload.antt =====
-- What `LoadSnapshot` of src/store/store.cpp makes of a snapshot, key by key.
use redis_cpp.Base.{
  ℕ, ◌≤◌, ◌≡◌, refl, ◌∙◌, ap, inl, inr, Option, none, some, [], ◌∷◌, arith, Bytes, str_eq,
  str_eq_iff, str_eq_refl, Bool-cases,
}
use redis_cpp.HashTable
use redis_cpp.HashTable.{HashTable}
use redis_cpp.HashTable.Nodes.{Chain, find, occurs, find-none, total}
use redis_cpp.HashTable.Methods.{find-entries, occurs-entries-le, occurs-entries-le}
use redis_cpp.Value.{Value}
use redis_cpp.Store.{Store, is_expired}
use redis_cpp.Store.Invariant.{IsValid, peek, strip_entry}
use redis_cpp.Store.View.{view, live}
use redis_cpp.Store.Snapshot.{SnapshotEntry, capture, capture_all, snapshot, load_snapshot}
use redis_cpp.Store.Snapshot.Loading.{find_entry, reload, Distinct, load_snapshot-Distinct}

-- The entry that `Snapshot` makes of what is bound to a key.
abbrev pub captured : ℕ → ℕ → Bytes → Option Value → Option SnapshotEntry
captured now wall q none = none
captured now wall q (some v) = some (capture now wall q v)

find_entry-capture_all :
    (now wall : ℕ) (q : Bytes) (c : Chain Value)
    → occurs q c ≤ 1
    → find_entry q (capture_all now wall c) ≡ captured now wall q (live now (find q c))
unfolding find_entry capture_all find total capture
find_entry-capture_all now wall q [] few = refl
find_entry-capture_all now wall q ((k, v) ∷ c) few = elim (Bool-cases (str_eq k q)) [
  | inl same ↦ elim (Bool-cases (is_expired now v)) [
    | inl gone ↦
        let nowhere : occurs q c ≡ 0 = ground (arith, few, same) in
        rw (same, gone)
          (find_entry-capture_all now wall q c (omega arith) ∙ rw (find-none q c nowhere) refl)
    | inr alive ↦
        rw (alive, same, alive)
          (ap (λ (j : Bytes). some (capture now wall j v)) ((str_eq_iff k q).0 same))
  ]
  | inr different ↦
      let fewer : occurs q c ≤ 1 = ground (arith, few, different) in
      elim (Bool-cases (is_expired now v)) [
        | inl gone ↦ rw (gone, different) (find_entry-capture_all now wall q c fewer)
        | inr alive ↦ rw (alive, different) (find_entry-capture_all now wall q c fewer)
      ]
]

capture_all-Distinct :
    (now wall : ℕ) (c : Chain Value)
    → ((q : Bytes) → occurs q c ≤ 1)
    → Distinct (capture_all now wall c)
unfolding capture_all Distinct total capture
capture_all-Distinct now wall [] few = tt
capture_all-Distinct now wall ((k, v) ∷ c) few =
    let rest = capture_all-Distinct now wall c (λ q. omega (arith, few q)) in
    elim (Bool-cases (is_expired now v)) [
      | inl gone ↦ rw gone rest
      | inr alive ↦
          let nowhere : occurs k c ≡ 0 = ground (arith, few k, str_eq_refl k) in
          rw alive (
            find_entry-capture_all now wall k c (omega arith) ∙ rw (find-none k c nowhere) refl,
            rest,
          )
    ]

captured-live :
    (now wall : ℕ) (q : Bytes) (o : Option Value)
    → captured now wall q (live now o) ≡ captured now wall q (live now (strip_entry o))
unfolding capture is_expired
captured-live now wall q none = refl
captured-live now wall q (some v) = elim (Bool-cases (is_expired now v)) [
  | inl gone ↦ rw gone refl
  | inr alive ↦ rw alive refl
]

pub find_entry-snapshot :
    (now wall : ℕ) (q : Bytes) (s : Store)
    → IsValid s
    → find_entry q (snapshot now wall s) ≡ captured now wall q (view now q s)
unfolding snapshot view peek
find_entry-snapshot now wall q s valid =
    find_entry-capture_all now wall q (HashTable.entries s.table)
      (occurs-entries-le q s.table valid.table)
    ∙ ap (λ (o : Option Value). captured now wall q (live now o))
        (find-entries s.table q valid.table)
    ∙ captured-live now wall q (HashTable.get q s.table)

pub snapshot-Distinct : (now wall : ℕ) (s : Store) → IsValid s → Distinct (snapshot now wall s)
unfolding snapshot
snapshot-Distinct now wall s valid =
    capture_all-Distinct now wall (HashTable.entries s.table)
      (λ q. occurs-entries-le q s.table valid.table)

-- Loading the snapshot of a well-formed store into any store with no memory budget leaves a
-- well-formed store, in which each key holds what LoadSnapshot makes of the entry that Snapshot
-- makes of the value in view, stamp apart, and nothing if none is in view or its wall-clock
-- deadline has passed.
pub load_snapshot-snapshot :
    (now wall now' wall' : ℕ) (s s' : Store) (q : Bytes)
    → IsValid s
    → s'.max_memory_bytes ≡ 0
    → IsValid (load_snapshot now' wall' (snapshot now wall s) s')
      × (peek q (load_snapshot now' wall' (snapshot now wall s) s')
          ≡ reload now' wall' (captured now wall q (view now q s)))
load_snapshot-snapshot now wall now' wall' s s' q valid unlimited =
    let (well, reads) =
      load_snapshot-Distinct now' wall' (snapshot now wall s) s' q
        (snapshot-Distinct now wall s valid) unlimited in
    (well, reads ∙ ap (reload now' wall') (find_entry-snapshot now wall q s valid))
