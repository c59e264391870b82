-- ===== src/Store/HashDeletes.antt =====
-- HDEL of src/store/store.cpp as a client sees it.
use redis_cpp.Base.{
  ℕ, ◌+◌, ◌≡◌, refl, inl, inr, true, false, Option, none, some, List, [], ◌∷◌, arith, if◌then◌else◌,
  ◌==◌, Bytes, Bool-cases, Option-cases,
}
use redis_cpp.Base.Int.{ℤ, pos}
use redis_cpp.HashTable
use redis_cpp.HashTable.{HashTable}
use redis_cpp.HashTable.Invariant
use redis_cpp.HashTable.Invariant.{is_some, one, empty-IsValid, Binds-trans}
use redis_cpp.HashTable.Methods.{put_at-Binds, delete-Binds}
use redis_cpp.Value.{hash, Value, type_eq}
use redis_cpp.Store.{
  Result, success, wrong_type_result, Store, is_expired, sub_size, estimate_entry_bytes,
}
use redis_cpp.Store.Writes.{delete_fields, finish_hdel, hdel}
use redis_cpp.Store.Strings
use redis_cpp.Store.Invariant.{IsValid, strip, Updates, Binds-Updates}
use redis_cpp.Store.View.{view, SameView, SameView-refl, drop_entry-SameView}
use redis_cpp.Store.Lookup.{view-absent, view-gone, view-alive}
use redis_cpp.Store.Modify.{Fits, write_back-Updates}

-- The loop of `HDel` removes its fields, and counts those by which the hash shrinks.
pub record Removes (fields : List Bytes) (t : HashTable Bytes) (r : ℕ × HashTable Bytes)
    : Type 0 where
  pub valid : Invariant.IsValid r.1
  pub reads :
      (q : Bytes)
      → HashTable.get q r.1 ≡ (if Strings.member q fields then none else HashTable.get q t)
  pub removed : HashTable.len r.1 + r.0 ≡ HashTable.len t

delete_one-len :
    (k : Bytes) (t : HashTable Bytes)
    → Invariant.IsValid t
    → HashTable.len (HashTable.delete k t).1 + (if (HashTable.delete k t).0 then 1 else 0)
      ≡ HashTable.len t
delete_one-len k t v =
    let (found, b) = delete-Binds k t v in
    ground
      (arith, found, b.totals one, b.valid.counted, v.counted, Option-cases (HashTable.get k t))

pub delete_fields-Removes :
    (fields : List Bytes) (t : HashTable Bytes)
    → Invariant.IsValid t
    → Removes fields t (delete_fields fields t)
unfolding delete_fields
delete_fields-Removes [] t v = record { valid = v; reads = λ q. refl; removed = omega arith }
delete_fields-Removes (field ∷ fields) t v =
    let b = (delete-Binds field t v).1 in
    let rest = delete_fields-Removes fields (HashTable.delete field t).1 b.valid in
    record {
      valid = rest.valid;
      reads = λ q. ground (arith, rest.reads q, b.reads q);
      removed = ground (arith, rest.removed, delete_one-len field t v);
    }

-- The end of HDEL writes the smaller hash back, or removes the key of an empty one.
finish_hdel-Updates :
    (k : Bytes) (v v' : Value) (s : Store)
    → IsValid s
    → HashTable.get k s.table ≡ some v
    → Invariant.IsValid v'.hash_value
    → Updates s k
        (if HashTable.len v'.hash_value == 0 then none else some (strip v'))
        (finish_hdel k v v' s)
unfolding finish_hdel
finish_hdel-Updates k v v' s valid found ok = elim (Bool-cases (HashTable.len v'.hash_value == 0)) [
  | inr left ↦ rw left (write_back-Updates k v v' s valid found ok)
  | inl empty ↦
      let b = put_at-Binds k v' v s.table valid.table found in
      let gone = Binds-trans b (delete-Binds k (HashTable.put_at k v' s.table) b.valid).1 in
      let s' : Store = record s {
        table = (HashTable.delete k (HashTable.put_at k v' s.table)).1;
        used_memory_bytes = sub_size s.used_memory_bytes (estimate_entry_bytes k v);
      } in
      rw empty (
        Binds-Updates s s' k none valid gone (rw found (unfold estimate_entry_bytes in omega arith))
          refl tt)
]

-- What HDEL does to the entry in view.
abbrev pub HdelEffect : ℕ → List Bytes → Bytes → Store → Option Value → Result ℤ × Store → Type 0
HdelEffect now fields k s none r = (r.0 ≡ success (pos 0)) × SameView now s r.1
HdelEffect now fields k s (some v) r =
    let t = delete_fields fields v.hash_value in
    (r.0 ≡ success (pos t.0))
    × Updates s k
        (if HashTable.len t.1 == 0 then none else some (strip (record v { hash_value = t.1 }))) r.1

-- With no value of another type in view, HDEL on a well-formed store replies 0 and shows no
-- change if no hash is in view, and otherwise replies the number of fields removed and writes the
-- smaller hash, or removes the key if no field is left.
pub hdel-lem :
    (fields : List Bytes) (now : ℕ) (k : Bytes) (s : Store)
    → IsValid s
    → Fits hash (view now k s)
    → HdelEffect now fields k s (view now k s) (hdel fields now k s)
unfolding hdel
hdel-lem fields now k s valid fits = elim (Option-cases (HashTable.get k s.table)) [
  | inl e ↦ rw (view-absent now k s e, e, hdel) (refl, SameView-refl now s valid)
  | inr (v, e) ↦ elim (Bool-cases (is_expired now v)) [
    | inl gone ↦
        rw (view-gone now k v s e gone, e, hdel, gone)
          (refl, drop_entry-SameView now k v s valid e gone)
    | inr alive ↦
        let there = view-alive now k v s e alive in
        let right : type_eq v.type hash ≡ true = rw there at fits in
        let r = delete_fields-Removes fields v.hash_value (valid.hashes k v e) in
        rw (there, e, hdel, alive, right)
          (
            refl,
            finish_hdel-Updates k v
                (record v { hash_value = (delete_fields fields v.hash_value).1 }) s valid e r.valid,
          )
  ]
]

-- HDEL on a value of another type replies WRONGTYPE and leaves the store as it is.
pub hdel_wrong :
    (fields : List Bytes) (now : ℕ) (k : Bytes) (s : Store) (v : Value)
    → view now k s ≡ some v
    → type_eq v.type hash ≡ false
    → hdel fields now k s ≡ (wrong_type_result, s)
unfolding hdel
hdel_wrong fields now k s v there wrong = elim (Option-cases (HashTable.get k s.table)) [
  | inl e ↦ absurd (cc (there, view-absent now k s e))
  | inr (u, e) ↦ elim (Bool-cases (is_expired now u)) [
    | inl gone ↦ absurd (cc (there, view-gone now k u s e gone))
    | inr alive ↦
        let same = view-alive now k u s e alive in
        let other : type_eq u.type hash ≡ false = ground (arith, same, there, wrong) in
        rw (e, hdel, alive, other) refl
  ]
]
