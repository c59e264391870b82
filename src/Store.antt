-- ===== src/Store.antt =====
-- src/store/store.h and src/store/store.cpp: the typed keyspace over the hash table.
-- This file holds the state and what the operations share: sizes, recency, expiry, eviction.
-- A call runs under the store's lock, so an operation is a function from a state to a state; the
-- clock readings within one call are one instant `now`, in nanoseconds of `steady_clock`.
-- The generator behind `SampleKeys` is a stream of draws and the number of draws used so far.
pub mod Reads
pub mod Writes
pub mod Invariant
pub mod Evict
pub mod Concurrent
pub mod Interleaving
pub mod View
pub mod Lookup
pub mod Modify
pub mod Slice
pub mod Strings
pub mod Lists
pub mod Expiry
pub mod Hashes
pub mod HashDeletes
pub mod Alike
pub mod Listing
pub mod Snapshot
use redis_cpp.Base.{
  ℕ, zero, suc, ◌+◌, ◌-◌, ◌*◌, ◌%◌, ◌^◌, Bool, true, false, ◌&&◌, Option, none, some, List, [], ◌∷◌,
  ltb, leb, ◌==◌, if◌then◌else◌, length, Bytes,
}
use redis_cpp.Base.Int.{ℤ, pos, leb_ℤ}
use redis_cpp.HashTable
use redis_cpp.HashTable.Nodes.{Chain}
use redis_cpp.HashTable.{HashTable}
use redis_cpp.Value.{ValueType, string, list, hash, Value}

-- `kNone` and `kWrongType`.
pub data StoreError : Type 0 where
  no_error wrong_type : StoreError

pub record Result {ℓ} (A : Type ℓ) : Type ℓ where
  pub value : Option A
  pub error : StoreError

-- `Result<T>{}`.
abbrev pub missing {ℓ} : {A : Type ℓ} → Result A
missing = record { value = none; error = no_error }

abbrev pub success {ℓ} : {A : Type ℓ} → A → Result A
success a = record { value = some a; error = no_error }

abbrev pub wrong_type_result {ℓ} : {A : Type ℓ} → Result A
wrong_type_result = record { value = none; error = wrong_type }

-- `data_`, `access_clock_`, `max_memory_bytes_`, `used_memory_bytes_`, and the random generator.
pub record Store : Type 0 where
  pub table : HashTable Value
  pub access_clock : ℕ
  pub max_memory_bytes : ℕ
  pub used_memory_bytes : ℕ
  pub stream : ℕ → ℕ → ℕ
  pub drawn : ℕ

abbrev pub new_store : (ℕ → ℕ → ℕ) → Store
new_store stream = record {
  table = HashTable.empty;
  access_clock = 0;
  max_memory_bytes = 0;
  used_memory_bytes = 0;
  stream = stream;
  drawn = 0;
}

abbrev pub sample_size : ℕ
sample_size = 5

-- `kPerEntryOverheadBytes`, `kPerListElementOverheadBytes`, `kPerHashFieldOverheadBytes`.
abbrev pub per_entry_overhead_bytes : ℕ
per_entry_overhead_bytes = 48

abbrev pub per_list_element_overhead_bytes : ℕ
per_list_element_overhead_bytes = 16

abbrev pub per_hash_field_overhead_bytes : ℕ
per_hash_field_overhead_bytes = 16

-- The loop over the elements of a list value.
unfoldable pub list_bytes : List Bytes → ℕ
list_bytes [] = 0
list_bytes (elem ∷ elems) = length elem + per_list_element_overhead_bytes + list_bytes elems

abbrev pub field_bytes : Bytes → Bytes → ℕ
field_bytes field val = length field + length val + per_hash_field_overhead_bytes

-- The `switch` of `EstimateEntryBytes`; the hash case is its `ForEach`.
unfoldable pub payload_bytes : Value → ℕ
payload_bytes v = elim v.type [
  | string ↦ length v.str_value
  | list ↦ list_bytes v.list_value
  | hash ↦ HashTable.Nodes.total field_bytes (HashTable.entries v.hash_value)
]

-- The estimate before it is cut to `std::size_t`.
abbrev pub entry_bytes : Bytes → Value → ℕ
entry_bytes key v = length key + per_entry_overhead_bytes + payload_bytes v

abbrev pub size_mod : ℕ
size_mod = 2 ^ 64

unfoldable pub estimate_entry_bytes : Bytes → Value → ℕ
estimate_entry_bytes key v = entry_bytes key v % size_mod

-- `a += b` and `a -= b` on `std::size_t`.
abbrev pub add_size : ℕ → ℕ → ℕ
add_size a b = (a + b) % size_mod

abbrev pub sub_size : ℕ → ℕ → ℕ
sub_size a b = (a + size_mod - b) % size_mod

unfoldable pub is_expired : ℕ → Value → Bool
is_expired now v = elim v.expires_at [ none ↦ false | some t ↦ leb_ℤ t (pos now) ]

-- `v` is what the entry of `key` holds; the write goes through its pointer.
unfoldable pub touch : Bytes → Value → Store → Store
touch key v s = record s {
  table = HashTable.put_at key (record v { last_accessed_seq = s.access_clock }) s.table;
  access_clock = (s.access_clock + 1) % size_mod;
}

-- `used_memory_bytes_ -= EstimateEntryBytes(key, *v); data_.Delete(key);`
unfoldable pub drop_entry : Bytes → Value → Store → Store
drop_entry key v s = record s {
  table = (HashTable.delete key s.table).1;
  used_memory_bytes = sub_size s.used_memory_bytes (estimate_entry_bytes key v);
}

unfoldable pub delete_if_expired : ℕ → Bytes → Store → Bool × Store
delete_if_expired now key s = elim (HashTable.get key s.table) [
  | none ↦ (false, s)
  | some v ↦ if is_expired now v then (true, drop_entry key v s) else (false, s)
]

-- The loops that call `DeleteIfExpired` on each of a list of keys.
unfoldable pub delete_all_expired : ℕ → List Bytes → Store → Store
delete_all_expired now [] s = s
delete_all_expired now (key ∷ keys) s = delete_all_expired now keys (delete_if_expired now key s).1

-- The keys that a `ForEach` finds expired.
unfoldable pub expired_keys : ℕ → Chain Value → List Bytes
expired_keys now [] = []
expired_keys now ((key, v) ∷ rest) =
    if is_expired now v then key ∷ expired_keys now rest else expired_keys now rest

unfoldable pub sweep_expired : ℕ → Store → Store
sweep_expired now s = delete_all_expired now (expired_keys now (HashTable.entries s.table)) s

-- The test `accessed < oldest`.
unfoldable pub older : Bytes × Value → Bytes × Value → Bytes × Value
older candidate victim =
    if ltb candidate.1.last_accessed_seq victim.1.last_accessed_seq then candidate else victim

-- The loop over the sample: the first entry with the smallest stamp.
unfoldable pub oldest : Bytes × Value → Chain Value → Bytes × Value
oldest victim [] = victim
oldest victim (candidate ∷ rest) = oldest (older candidate victim) rest

-- A round of the `while` loop with its sample at hand: the loop goes on without the victim, and
-- breaks on an empty sample.
unfoldable pub evict_sampled : (Store → Store) → Chain Value → Store → Store
evict_sampled continue [] s = s
evict_sampled continue (first ∷ rest) s =
    let victim = oldest first rest in continue (drop_entry victim.0 victim.1 s)

-- The loop of `EvictIfOverBudget`; each round deletes an entry, so the number of entries is fuel
-- enough.
unfoldable pub evict_loop : ℕ → Store → Store
evict_loop zero s = s
evict_loop (suc fuel) s =
    let drew = HashTable.sample_keys s.stream sample_size s.drawn s.table in
    let round = evict_sampled (evict_loop fuel) drew.0 (record s { drawn = drew.1 }) in
    if ltb s.max_memory_bytes s.used_memory_bytes && ltb 0 (HashTable.len s.table) then round else s

unfoldable pub evict_if_over_budget : Store → Store
evict_if_over_budget s = if s.max_memory_bytes == 0 then s else evict_loop (HashTable.len s.table) s

unfoldable pub set_max_memory : ℕ → Store → Store
set_max_memory max_memory_bytes s =
    evict_if_over_budget (record s { max_memory_bytes = max_memory_bytes })

unfoldable pub used_memory : Store → ℕ
used_memory s = s.used_memory_bytes

unfoldable pub flush_all : Store → Store
flush_all s = record s { table = HashTable.clear s.table; used_memory_bytes = 0 }
