-- ===== src/Store/Snapshot.antt =====
-- `Snapshot` and `LoadSnapshot` of src/store/store.cpp. Both clocks are parameters, in nanoseconds:
-- `now` of the steady clock, `wall` of the system clock.
pub mod Loading
pub mod Reload
pub mod Content
use redis_cpp.Base.{
  ℕ, ◌+◌, ◌*◌, ◌/◌, Bool, true, false, Option, none, some, List, [], ◌∷◌, if◌then◌else◌, Bytes,
}
use redis_cpp.Base.Int.{ℤ, pos, to_int64, leb_ℤ}
use redis_cpp.HashTable
use redis_cpp.HashTable.Nodes.{Chain}
use redis_cpp.Value.{ValueType, hash, Value, type_eq, fresh_value}
use redis_cpp.Store.{
  Store, is_expired, touch, add_size, estimate_entry_bytes, evict_if_over_budget, flush_all,
}
use redis_cpp.Store.Reads.{remaining_ns}
use redis_cpp.Store.Writes.{set_fields}

pub record SnapshotEntry : Type 0 where
  pub key : Bytes
  pub type : ValueType
  pub str_value : Bytes
  pub list_value : List Bytes
  pub hash_value : List (Bytes × Bytes)
  pub expires_at_wall : Option ℤ

-- The time left, cut to milliseconds, from `wall` on.
abbrev pub wall_deadline : ℕ → ℕ → Option ℤ → Option ℤ
wall_deadline now wall none = none
wall_deadline now wall (some t) = some (to_int64 (wall + remaining_ns now t / 1000000 * 1000000))

unfoldable pub capture : ℕ → ℕ → Bytes → Value → SnapshotEntry
capture now wall key v = record {
  key = key;
  type = v.type;
  str_value = v.str_value;
  list_value = v.list_value;
  hash_value = if type_eq v.type hash then HashTable.entries v.hash_value else [];
  expires_at_wall = wall_deadline now wall v.expires_at;
}

-- The visit of `ForEach`.
unfoldable pub capture_all : ℕ → ℕ → Chain Value → List SnapshotEntry
capture_all now wall [] = []
capture_all now wall ((key, v) ∷ rest) =
    let out = capture_all now wall rest in
    if is_expired now v then out else capture now wall key v ∷ out

unfoldable pub snapshot : ℕ → ℕ → Store → List SnapshotEntry
snapshot now wall s = capture_all now wall (HashTable.entries s.table)

abbrev pub is_past : ℕ → Option ℤ → Bool
is_past wall none = false
is_past wall (some t) = leb_ℤ t (pos wall)

abbrev pub steady_deadline : ℕ → ℕ → Option ℤ → Option ℤ
steady_deadline now wall none = none
steady_deadline now wall (some t) = some (to_int64 (now + remaining_ns wall t))

unfoldable pub restored : ℕ → ℕ → SnapshotEntry → Value
restored now wall entry = record (fresh_value entry.type) {
  str_value = entry.str_value;
  list_value = entry.list_value;
  hash_value =
      if type_eq entry.type hash
      then (set_fields entry.hash_value HashTable.empty).1
      else HashTable.empty;
  expires_at = steady_deadline now wall entry.expires_at_wall;
}

unfoldable pub store_restored : Bytes → Value → Store → Store
store_restored key v s = touch key v (record s {
  table = (HashTable.set_key key v s.table).1;
  used_memory_bytes = add_size s.used_memory_bytes (estimate_entry_bytes key v);
})

unfoldable pub load_entry : ℕ → ℕ → SnapshotEntry → Store → Store
load_entry now wall entry s =
    if is_past wall entry.expires_at_wall
    then s
    else store_restored entry.key (restored now wall entry) s

unfoldable pub load_entries : ℕ → ℕ → List SnapshotEntry → Store → Store
load_entries now wall [] s = s
load_entries now wall (entry ∷ entries) s =
    load_entries now wall entries (load_entry now wall entry s)

unfoldable pub load_snapshot : ℕ → ℕ → List SnapshotEntry → Store → Store
load_snapshot now wall entries s =
    evict_if_over_budget (load_entries now wall entries (flush_all s))
