-- ===== src/Store/Snapshot/Content.antt =====
-- What a value keeps through `Snapshot` and `LoadSnapshot` of src/store/store.cpp.
use redis_cpp.Base.{
  ℕ, ◌+◌, ◌-◌, ◌*◌, ◌/◌, ◌^◌, ◌≤◌, ◌<◌, ◌≡◌, refl, ◌∙◌, inl, inr, Option, none, some, [], ◌∷◌,
  arith, if◌then◌else◌, Bytes, str_eq, Bool-cases,
}
use redis_cpp.Base.Int.{pos}
use redis_cpp.HashTable
use redis_cpp.HashTable.{HashTable}
use redis_cpp.HashTable.Nodes.{Chain, find, occurs, find-none, total}
use redis_cpp.HashTable.Invariant
use redis_cpp.HashTable.Invariant.{is_some, empty-IsValid, get-empty}
use redis_cpp.HashTable.Methods.{find-entries, occurs-entries-le}
use redis_cpp.Value.{hash, Value, type_eq}
use redis_cpp.Store.Hashes.{assigned, set_fields-Assigns}
use redis_cpp.Store.Writes.{set_fields}
use redis_cpp.Store.Snapshot.{capture, restored, wall_deadline, steady_deadline}

-- The entries of a table, assigned in order, make up the same map.
assigned-find :
    (c : Chain Bytes) (q : Bytes) (o : Option Bytes)
    → occurs q c ≤ 1
    → assigned c q o ≡ (if is_some (find q c) then find q c else o)
unfolding find total
assigned-find [] q o few = refl
assigned-find ((f, x) ∷ c) q o few = elim (Bool-cases (str_eq f q)) [
  | inl same ↦
      let nowhere : occurs q c ≡ 0 = ground (arith, few, same) in
      rw (same, assigned-find c q (some x) (omega arith), find-none q c nowhere) refl
  | inr different ↦
      let fewer : occurs q c ≤ 1 = ground (arith, few, different) in
      rw (different, assigned-find c q o fewer) refl
]

or_none : (o : Option Bytes) → (if is_some o then o else none) ≡ o
or_none none = refl
or_none (some x) = refl

-- A hash is rebuilt with the same fields.
pub set_fields-entries :
    (t : HashTable Bytes) (q : Bytes)
    → Invariant.IsValid t
    → HashTable.get q (set_fields (HashTable.entries t) HashTable.empty).1 ≡ HashTable.get q t
set_fields-entries t q valid =
    let c = HashTable.entries t in
    (set_fields-Assigns c HashTable.empty empty-IsValid).reads q
    ∙ rw (get-empty {V = Bytes} q) (assigned-find c q none (occurs-entries-le q t valid))
    ∙ or_none (find q c)
    ∙ find-entries t q valid

-- `v'` has the type and the content of `v`.
pub record Keeps (v v' : Value) : Type 0 where
  pub type : v'.type ≡ v.type
  pub str_value : v'.str_value ≡ v.str_value
  pub list_value : v'.list_value ≡ v.list_value
  pub hash_value :
      (q : Bytes)
      → HashTable.get q v'.hash_value
        ≡ (if type_eq v.type hash then HashTable.get q v.hash_value else none)

-- What LoadSnapshot makes of the entry that Snapshot makes of a value with a well-formed hash has
-- the same type, string and list, and, for a hash, the same value of every field, for another
-- type no field.
pub restored-Keeps :
    (now wall now' wall' : ℕ) (k : Bytes) (v : Value)
    → Invariant.IsValid v.hash_value
    → Keeps v (restored now' wall' (capture now wall k v))
unfolding restored capture
restored-Keeps now wall now' wall' k v valid = record {
  type = refl;
  str_value = refl;
  list_value = refl;
  hash_value = λ q. elim (Bool-cases (type_eq v.type hash)) [
    | inl is_hash ↦ rw is_hash (set_fields-entries v.hash_value q valid)
    | inr other ↦ rw other (get-empty {V = Bytes} q)
  ];
}

-- A deadline ahead, carried through a snapshot to a later instant of the wall clock at which its
-- wall-clock form has not passed, leaves the time that was left less the time gone by on the wall
-- clock, and less than a millisecond less than that, as long as the instants fit 63 bits.
pub restored-deadline :
    (now wall now' wall' d : ℕ)
    → now < d
    → wall ≤ wall'
    → wall' < wall + (d - now) / 1000000 * 1000000
    → wall + (d - now) < 2 ^ 63
    → now' + (d - now) < 2 ^ 63
    → (left : ℕ) × (steady_deadline now' wall' (wall_deadline now wall (some (pos d)))
        ≡ some (pos (now' + left)))
      × (left + (wall' - wall) ≤ d - now)
      × (d - now < left + (wall' - wall) + 1000000)
restored-deadline now wall now' wall' d ahead later alive small small' =
    let left = wall + (d - now) / 1000000 * 1000000 - wall' in
    (left, ground arith, omega arith, omega arith)
