-- ===== src/Store/Hashes.antt =====
-- HSET and HGET of src/store/store.cpp as a client sees them.
use redis_cpp.Base.{
  ℕ, ◌+◌, ◌≡◌, refl, ◌∙◌, ap, inl, inr, Option, some, List, [], ◌∷◌, arith, if◌then◌else◌, Bytes,
  str_eq, str_eq_refl, Bool-cases, Option-cases,
}
use mathlib.Core.Path.{fun_ext}
use redis_cpp.Base.Int.{ℤ, pos}
use redis_cpp.HashTable
use redis_cpp.HashTable.{HashTable}
use redis_cpp.HashTable.Invariant
use redis_cpp.HashTable.Invariant.{is_some, one, empty-IsValid, Binds-trans}
use redis_cpp.HashTable.Methods.{set_key-Binds}
use redis_cpp.Value.{hash}
use redis_cpp.Value.{Value}
use redis_cpp.Store.{Result, missing, success, Store, is_expired}
use redis_cpp.Store.Reads.{hget, field_result}
use redis_cpp.Store.Writes.{set_fields, hset_change, hset}
use redis_cpp.Store.Invariant.{IsValid, strip}
use redis_cpp.Store.View.{Writes-view, view, Writes}
use redis_cpp.Store.Lookup.{read_entry-Reads, view-absent, view-gone, view-alive}
use redis_cpp.Store.Modify.{base, Fits, IsChange, modify_entry-Writes}
use redis_cpp.Store.Lists.{view-not_expired, base-live, base-type}

-- The value that a list of assignments leaves a field: that of the last one to it.
abbrev pub assigned : List (Bytes × Bytes) → Bytes → Option Bytes → Option Bytes
assigned [] q o = o
assigned ((field, value) ∷ fields) q o =
    assigned fields q (if str_eq field q then some value else o)

-- How many different fields a list of assignments binds that were not bound before.
abbrev pub new_fields : List (Bytes × Bytes) → (Bytes → Option Bytes) → ℕ
new_fields [] before = 0
new_fields ((field, value) ∷ fields) before =
    new_fields fields (λ q. if str_eq field q then some value else before q)
    + (if is_some (before field) then 0 else 1)

-- The loop of `HSet` makes its assignments in order, and counts the fields by which the hash grows.
pub record Assigns (fields : List (Bytes × Bytes)) (t : HashTable Bytes) (r : ℕ × HashTable Bytes)
    : Type 0 where
  pub valid : Invariant.IsValid r.1
  pub reads : (q : Bytes) → HashTable.get q r.1 ≡ assigned fields q (HashTable.get q t)
  pub added : HashTable.len r.1 ≡ HashTable.len t + r.0
  pub new : r.0 ≡ new_fields fields (λ q. HashTable.get q t)

set_one-len :
    (k new : Bytes) (t : HashTable Bytes)
    → Invariant.IsValid t
    → HashTable.len (HashTable.set_key k new t).1
      ≡ HashTable.len t + (if (HashTable.set_key k new t).0 then 0 else 1)
set_one-len k new t v =
    let (updated, b) = set_key-Binds k new t v in
    ground
      (arith, updated, b.totals one, b.valid.counted, v.counted, Option-cases (HashTable.get k t))

pub set_fields-Assigns :
    (fields : List (Bytes × Bytes)) (t : HashTable Bytes)
    → Invariant.IsValid t
    → Assigns fields t (set_fields fields t)
unfolding set_fields
set_fields-Assigns [] t v = record { valid = v; reads = λ q. refl; added = omega arith; new = refl }
set_fields-Assigns ((field, value) ∷ fields) t v =
    let b = (set_key-Binds field value t v).1 in
    let rest = set_fields-Assigns fields (HashTable.set_key field value t).1 b.valid in
    record {
      valid = rest.valid;
      reads = λ q. rest.reads q ∙ ap (assigned fields q) (b.reads q);
      added = ground (arith, rest.added, set_one-len field value t v);
      new =
          let updated = (set_key-Binds field value t v).0 in
          let after = rest.new ∙ ap (new_fields fields) (fun_ext b.reads) in
          ground (arith, updated, after);
    }

pub hset-IsChange : (fields : List (Bytes × Bytes)) → IsChange (hset_change fields)
hset-IsChange fields = record {
  reply = λ v. refl;
  result = λ v. refl;
  hashes = λ v h. (set_fields-Assigns fields v.hash_value h).valid;
}

-- The hash in view is a well-formed table.
pub base-hash :
    (now : ℕ) (k : Bytes) (s : Store)
    → IsValid s
    → Invariant.IsValid (base hash (view now k s)).hash_value
base-hash now k s valid = elim (Option-cases (HashTable.get k s.table)) [
  | inl e ↦ rw (view-absent now k s e) empty-IsValid
  | inr (v, e) ↦ elim (Bool-cases (is_expired now v)) [
    | inl gone ↦ rw (view-gone now k v s e gone) empty-IsValid
    | inr alive ↦ rw (view-alive now k v s e alive) (valid.hashes k v e)
  ]
]

-- What HSET makes of a value: the assignments in order, and the number of fields that they add.
pub record HsetEffect (fields : List (Bytes × Bytes)) (k : Bytes) (v : Value) (s : Store)
    (r : Result ℤ × Store) : Type 0 where
  pub added : ℕ
  pub table : HashTable Bytes
  pub replies : r.0 ≡ success (pos added)
  pub writes : Writes s k (some (strip (record v { hash_value = table }))) r.1
  pub reads : (q : Bytes) → HashTable.get q table ≡ assigned fields q (HashTable.get q v.hash_value)
  pub grows : added ≡ new_fields fields (λ q. HashTable.get q v.hash_value)
  pub counts : HashTable.len table ≡ HashTable.len v.hash_value + added

-- With no value of another type in view, HSET on a well-formed store writes, with the type and
-- the deadline of the value in view, a hash in which each field has the value of the last
-- assignment to it, and the one that it had where there is none. It replies the number of the
-- different fields that are assigned and that the hash did not have, and the hash grows by that
-- many. With no memory budget that write is all that shows, and with one eviction may remove
-- entries besides.
pub hset-Writes :
    (fields : List (Bytes × Bytes)) (now : ℕ) (k : Bytes) (s : Store)
    → IsValid s
    → Fits hash (view now k s)
    → HsetEffect fields k (base hash (view now k s)) s (hset fields now k s)
unfolding hset
hset-Writes fields now k s valid fits =
    let w =
      modify_entry-Writes hash (hset_change fields) (hset-IsChange fields) now k s valid fits in
    let a = set_fields-Assigns fields _ (base-hash now k s valid) in
    record {
      added = _;
      table = _;
      replies = w.0;
      writes = w.1;
      reads = a.reads;
      grows = a.new;
      counts = a.added;
    }

-- With no memory budget and no value of another type in view, HGET of a field after HSET on a
-- well-formed store replies the value of the last assignment to the field, and where there is
-- none what the hash held.
pub hget-hset :
    (fields : List (Bytes × Bytes)) (q : Bytes) (now : ℕ) (k : Bytes) (s : Store)
    → IsValid s
    → s.max_memory_bytes ≡ 0
    → Fits hash (view now k s)
    → (hget q now k (hset fields now k s).1).0
      ≡ field_result (assigned fields q (HashTable.get q (base hash (view now k s)).hash_value))
unfolding hget
hget-hset fields q now k s valid unlimited fits =
    let o = view now k s in
    let effect = hset-Writes fields now k s valid fits in
    let w = strip (record (base hash o) { hash_value = effect.table }) in
    let here : view now k (hset fields now k s).1 ≡ some w =
      rw (Writes-view effect.writes unlimited now k, str_eq_refl k)
        (base-live hash now o w (view-not_expired now k s) refl) in
    let read =
      read_entry-Reads hash missing (λ v. field_result (HashTable.get q v.hash_value)) (λ v. refl)
        now k (hset fields now k s).1 effect.writes.valid in
    rw (read.replies, here, base-type hash o fits, effect.reads q) refl
