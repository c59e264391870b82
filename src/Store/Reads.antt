-- ===== src/Store/Reads.antt =====
-- The `const` operations of src/store/store.cpp. They return the store too: a read stamps the
-- entry that it finds, and removes one that has expired.
use redis_cpp.Base.{
  ℕ, ◌+◌, ◌-◌, ◌/◌, ◌&&◌, ◌||◌, Option, none, some, List, [], ◌∷◌, map, if◌then◌else◌, length, take,
  drop, Bytes,
}
use redis_cpp.Base.Int.{ℤ, pos, negsuc, pos_part, ◌+ℤ◌, ltb_ℤ, to_int32}
use redis_cpp.HashTable
use redis_cpp.HashTable.Nodes.{Chain}
use redis_cpp.Value.{ValueType, string, list, hash, Value, type_eq}
use redis_cpp.Store.{
  Result, missing, success, wrong_type_result, Store, is_expired, touch, delete_if_expired,
  delete_all_expired, expired_keys,
}

-- The body that the typed reads share: `absent` is returned for a key that is missing or expired,
-- and `answer` is computed from a value of the type.
unfoldable pub read_entry {ℓ} :
    {A : Type ℓ} → ValueType → Result A → (Value → Result A) → ℕ → Bytes → Store → Result A × Store
read_entry ty absent answer now key s = elim (HashTable.get key s.table) [
  | none ↦ (absent, s)
  | some v ↦
      if is_expired now v
      then (absent, (delete_if_expired now key s).1)
      else if type_eq v.type ty
      then (answer v, touch key v s)
      else (wrong_type_result, s)
]

unfoldable pub get : ℕ → Bytes → Store → Result Bytes × Store
get = read_entry string missing (λ v. success v.str_value)

unfoldable pub llen : ℕ → Bytes → Store → Result ℤ × Store
llen = read_entry list (success (pos 0)) (λ v. success (to_int32 (length v.list_value)))

unfoldable pub normalize_index : ℤ → ℤ → ℤ
normalize_index index n = if ltb_ℤ index (pos 0) then n +ℤ index else index

abbrev pub max_ℤ : ℤ → ℤ → ℤ
max_ℤ a b = if ltb_ℤ a b then b else a

abbrev pub min_ℤ : ℤ → ℤ → ℤ
min_ℤ a b = if ltb_ℤ b a then b else a

-- The slice that `LRange` copies out of the vector.
unfoldable pub slice {ℓ} : {A : Type ℓ} → ℤ → ℤ → List A → List A
slice start stop elems =
    let n = to_int32 (length elems) in
    let norm_start = max_ℤ (normalize_index start n) (pos 0) in
    let norm_stop = min_ℤ (normalize_index stop n) (n +ℤ negsuc 0) in
    if ltb_ℤ norm_stop norm_start || (ltb_ℤ n (pos 1) && ltb_ℤ (negsuc 0) n)
    then []
    else take (pos_part norm_stop + 1 - pos_part norm_start) (drop (pos_part norm_start) elems)

unfoldable pub lrange : ℤ → ℤ → ℕ → Bytes → Store → Result (List Bytes) × Store
lrange start stop = read_entry list (success []) (λ v. success (slice start stop v.list_value))

abbrev pub field_result : Option Bytes → Result Bytes
field_result none = missing
field_result (some val) = success val

unfoldable pub hget : Bytes → ℕ → Bytes → Store → Result Bytes × Store
hget field = read_entry hash missing (λ v. field_result (HashTable.get field v.hash_value))

unfoldable pub hgetall : ℕ → Bytes → Store → Result (List (Bytes × Bytes)) × Store
hgetall = read_entry hash (success []) (λ v. success (HashTable.entries v.hash_value))

unfoldable pub hlen : ℕ → Bytes → Store → Result ℤ × Store
hlen = read_entry hash (success (pos 0)) (λ v. success (to_int32 (HashTable.len v.hash_value)))

abbrev pub presence : Option Bytes → ℤ
presence none = pos 0
presence (some _) = pos 1

unfoldable pub hexists : Bytes → ℕ → Bytes → Store → Result ℤ × Store
hexists field =
    read_entry hash (success (pos 0)) (λ v. success (presence (HashTable.get field v.hash_value)))

unfoldable pub hkeys : ℕ → Bytes → Store → Result (List Bytes) × Store
hkeys = read_entry hash (success []) (λ v. success (HashTable.keys v.hash_value))

unfoldable pub hvals : ℕ → Bytes → Store → Result (List Bytes) × Store
hvals =
    read_entry hash (success []) (λ v. success (map (λ e. e.1) (HashTable.entries v.hash_value)))

-- `*v->expires_at - Clock::now()`, positive where it is read.
abbrev pub remaining_ns : ℕ → ℤ → ℕ
remaining_ns now (pos t) = t - now
remaining_ns now (negsuc _) = 0

abbrev pub ttl_seconds : ℕ → Option ℤ → ℤ
ttl_seconds now none = negsuc 0
ttl_seconds now (some t) = pos ((remaining_ns now t / 1000000 + 500) / 1000)

unfoldable pub ttl : ℕ → Bytes → Store → ℤ × Store
ttl now key s = elim (HashTable.get key s.table) [
  | none ↦ (negsuc 1, s)
  | some v ↦
      if is_expired now v
      then (negsuc 1, (delete_if_expired now key s).1)
      else (ttl_seconds now v.expires_at, s)
]

-- The loop of `Exists` under the shared lock: the count, and the keys that were found expired.
unfoldable pub exists_loop : ℕ → List Bytes → Store → ℕ × List Bytes
exists_loop now [] s = (0, [])
exists_loop now (key ∷ keys) s =
    let (count, expired) = exists_loop now keys s in
    elim (HashTable.get key s.table) [
      | none ↦ (count, expired)
      | some v ↦ if is_expired now v then (count, key ∷ expired) else (count + 1, expired)
    ]

unfoldable pub exists : ℕ → List Bytes → Store → ℤ × Store
exists now keys s =
    let (count, expired) = exists_loop now keys s in (pos count, delete_all_expired now expired s)

unfoldable pub live_keys : ℕ → Chain Value → List Bytes
live_keys now [] = []
live_keys now ((key, v) ∷ rest) =
    if is_expired now v then live_keys now rest else key ∷ live_keys now rest

unfoldable pub keys : ℕ → Store → List Bytes × Store
keys now s =
    let all = HashTable.entries s.table in
    (live_keys now all, delete_all_expired now (expired_keys now all) s)
