-- ===== src/Store/Writes.antt =====
-- The operations of src/store/store.cpp that take the lock for writing.
use redis_cpp.Base.{
  ℕ, ◌+◌, ◌*◌, Bool, true, false, Option, none, some, List, [], ◌∷◌, ◌++◌, ◌==◌, if◌then◌else◌,
  length, Bytes,
}
use redis_cpp.Base.Int.{ℤ, pos, leb_ℤ, pos_part, to_int32, to_int64}
use redis_cpp.HashTable
use redis_cpp.HashTable.{HashTable}
use redis_cpp.Value.{ValueType, string, list, hash, Value, type_eq, fresh_value}
use redis_cpp.Store.{
  Result, success, wrong_type_result, Store, add_size, sub_size, estimate_entry_bytes, is_expired,
  touch, drop_entry, evict_if_over_budget,
}

-- `existing != nullptr ? EstimateEntryBytes(key, *existing) : 0`.
abbrev pub bytes_before : Bytes → Option Value → ℕ
bytes_before key none = 0
bytes_before key (some v) = estimate_entry_bytes key v

-- `data_.Set(key, v)` with the accounting and the stamp that follow it. The pointer that the code
-- fetches again is to the value just stored.
unfoldable pub store_value : Bytes → Value → Store → Store
store_value key v s = touch key v (record s {
  table = (HashTable.set_key key v s.table).1;
  used_memory_bytes =
      add_size (sub_size s.used_memory_bytes (bytes_before key (HashTable.get key s.table)))
        (estimate_entry_bytes key v);
})

abbrev pub string_value : Bytes → Value
string_value value = record (fresh_value string) { str_value = value }

unfoldable pub set : Bytes → Bytes → Store → Store
set key value s = evict_if_over_budget (store_value key (string_value value) s)

unfoldable pub del_loop : ℕ → List Bytes → Store → ℕ × Store
del_loop now [] s = (0, s)
del_loop now (key ∷ keys) s =
    let r : ℕ × Store = elim (HashTable.get key s.table) [
      | none ↦ (0, s)
      | some v ↦ (if is_expired now v then 0 else 1, drop_entry key v s)
    ] in
    let (removed, s') = del_loop now keys r.1 in (r.0 + removed, s')

unfoldable pub del : ℕ → List Bytes → Store → ℤ × Store
del now keys s = let (removed, s') = del_loop now keys s in (pos removed, s')

-- `Clock::now() + std::chrono::seconds(seconds)` for positive seconds, in 64-bit nanoseconds: the
-- product and the sum wrap.
abbrev pub deadline : ℕ → ℕ → ℤ
deadline now seconds = to_int64 (now + seconds * 1000000000)

unfoldable pub expire : ℕ → Bytes → ℤ → Store → Bool × Store
expire now key seconds s = elim (HashTable.get key s.table) [
  | none ↦ (false, s)
  | some v ↦
      if is_expired now v
      then (false, drop_entry key v s)
      else if leb_ℤ seconds (pos 0)
      then (true, drop_entry key v s)
      else (
        true,
        record s {
          table =
              HashTable.put_at key
                (record v { expires_at = some (deadline now (pos_part seconds)) }) s.table;
        },
      )
]

-- The branch of `GetOrCreateList` and `GetOrCreateHash` for an absent key.
unfoldable pub create_entry : ValueType → Bytes → Store → Option Value × Store
create_entry ty key s =
    let v = fresh_value ty in
    let s' = touch key v (record s {
      table = (HashTable.set_key key v s.table).1;
      used_memory_bytes = add_size s.used_memory_bytes (estimate_entry_bytes key v);
    }) in
    (HashTable.get key s'.table, s')

-- `GetOrCreateList` and `GetOrCreateHash`, which differ in the type; `none` is WRONGTYPE.
unfoldable pub get_or_create : ValueType → ℕ → Bytes → Store → Option Value × Store
get_or_create ty now key s = elim (HashTable.get key s.table) [
  | none ↦ create_entry ty key s
  | some v ↦
      if is_expired now v
      then create_entry ty key (drop_entry key v s)
      else if type_eq v.type ty
      then (some v, s)
      else (none, s)
]

-- The rest of `LPush`, `RPush` and `HSet` after the entry is fetched: `change` gives the reply and
-- the changed value.
unfoldable pub change_entry {ℓ} :
    {A : Type ℓ} → (Value → A × Value) → Bytes → Option Value × Store → Result A × Store
change_entry change key (none, s) = (wrong_type_result, s)
change_entry change key (some v, s) =
    let (reply, v') = change v in
    let s' : Store = record s {
      table = HashTable.put_at key v' s.table;
      used_memory_bytes =
          add_size (sub_size s.used_memory_bytes (estimate_entry_bytes key v))
            (estimate_entry_bytes key v');
    } in
    (success reply, evict_if_over_budget (touch key v' s'))

unfoldable pub modify_entry {ℓ} :
    {A : Type ℓ} → ValueType → (Value → A × Value) → ℕ → Bytes → Store → Result A × Store
modify_entry ty change now key s = change_entry change key (get_or_create ty now key s)

-- Each value in turn is inserted at the front.
unfoldable pub push_front : List Bytes → List Bytes → List Bytes
push_front [] elems = elems
push_front (value ∷ values) elems = push_front values (value ∷ elems)

abbrev pub set_list : List Bytes → Value → ℤ × Value
set_list elems v = (to_int32 (length elems), record v { list_value = elems })

unfoldable pub lpush : List Bytes → ℕ → Bytes → Store → Result ℤ × Store
lpush values = modify_entry list (λ v. set_list (push_front values v.list_value) v)

unfoldable pub rpush : List Bytes → ℕ → Bytes → Store → Result ℤ × Store
rpush values = modify_entry list (λ v. set_list (v.list_value ++ values) v)

-- The loop of `HSet`: the number of new fields, and the table.
unfoldable pub set_fields : List (Bytes × Bytes) → HashTable Bytes → ℕ × HashTable Bytes
set_fields [] t = (0, t)
set_fields ((field, value) ∷ fields) t =
    let (updated, t₁) = HashTable.set_key field value t in
    let (added, t₂) = set_fields fields t₁ in (if updated then added else added + 1, t₂)

abbrev pub hset_change : List (Bytes × Bytes) → Value → ℤ × Value
hset_change fields v =
    let (added, t) = set_fields fields v.hash_value in (pos added, record v { hash_value = t })

unfoldable pub hset : List (Bytes × Bytes) → ℕ → Bytes → Store → Result ℤ × Store
hset fields = modify_entry hash (hset_change fields)

-- The loop of `HDel`.
unfoldable pub delete_fields : List Bytes → HashTable Bytes → ℕ × HashTable Bytes
delete_fields [] t = (0, t)
delete_fields (field ∷ fields) t =
    let (found, t₁) = HashTable.delete field t in
    let (removed, t₂) = delete_fields fields t₁ in (if found then removed + 1 else removed, t₂)

-- The end of `HDel`, with the fields gone from the value `v'`; `v` is the value before.
unfoldable pub finish_hdel : Bytes → Value → Value → Store → Store
finish_hdel key v v' s =
    let s₁ : Store = record s { table = HashTable.put_at key v' s.table } in
    if HashTable.len v'.hash_value == 0
    then record s₁ {
      table = (HashTable.delete key s₁.table).1;
      used_memory_bytes = sub_size s.used_memory_bytes (estimate_entry_bytes key v);
    }
    else touch key v' (record s₁ {
      used_memory_bytes =
          add_size (sub_size s.used_memory_bytes (estimate_entry_bytes key v))
            (estimate_entry_bytes key v');
    })

unfoldable pub hdel : List Bytes → ℕ → Bytes → Store → Result ℤ × Store
hdel fields now key s = elim (HashTable.get key s.table) [
  | none ↦ (success (pos 0), s)
  | some v ↦
      if is_expired now v
      then (success (pos 0), drop_entry key v s)
      else if type_eq v.type hash
      then (let (removed, t) = delete_fields fields v.hash_value in
          (success (pos removed), finish_hdel key v (record v { hash_value = t }) s))
      else (wrong_type_result, s)
]
