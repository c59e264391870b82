-- ===== src/Rdb/Content.antt =====
-- What a value keeps through `SaveRdb` and `LoadRdb` of src/persistence/rdb.cpp.
use redis_cpp.Base.{
  ℕ, Bool, false, ◌+◌, ◌-◌, ◌*◌, ◌/◌, ◌^◌, ◌≤◌, ◌<◌, ◌≡◌, refl, ◌∙◌, ap, Option, none, some, arith,
  Bytes,
}
use redis_cpp.Base.Int.{ℤ, pos, to_int64}
use redis_cpp.HashTable
use redis_cpp.HashTable.Invariant
use redis_cpp.Value.{ValueType, string, list, hash, Value}
use redis_cpp.Store.Invariant.{strip}
use redis_cpp.Store.Snapshot.{
  SnapshotEntry, is_past, capture, restored, wall_deadline, steady_deadline,
}
use redis_cpp.Store.Snapshot.Loading.{reload}
use redis_cpp.Store.Snapshot.Reload.{captured}
use redis_cpp.Store.Snapshot.Content.{set_fields-entries}
use redis_cpp.Rdb.{blank, to_ms, of_ms}
use redis_cpp.Rdb.Entries.{filed_content, filed_deadline}
use redis_cpp.Rdb.Reloading.{filed_entry, read_back}

-- `v'` has the content of `v`, which is of type `ty`.
abbrev pub HasContent : ValueType → Value → Value → Type 0
HasContent string v v' = v'.str_value ≡ v.str_value
HasContent list v v' = v'.list_value ≡ v.list_value
HasContent hash v v' = (q : Bytes) → HashTable.get q v'.hash_value ≡ HashTable.get q v.hash_value

filed-type :
    (now wall : ℕ) (ty : ValueType) (e : SnapshotEntry) (t : Option ℤ)
    → (restored now wall (filed_content ty e (blank e.key ty t))).type ≡ ty
unfolding restored
filed-type now wall string e t = refl
filed-type now wall list e t = refl
filed-type now wall hash e t = refl

filed-none :
    (now wall : ℕ) (ty : ValueType) (e : SnapshotEntry)
    → reload now wall (some (filed_content ty e (blank e.key ty none)))
      ≡ some (strip (restored now wall (filed_content ty e (blank e.key ty none))))
filed-none now wall string e = refl
filed-none now wall list e = refl
filed-none now wall hash e = refl

filed-expires :
    (now wall : ℕ) (ty : ValueType) (e : SnapshotEntry)
    → (restored now wall (filed_content ty e (blank e.key ty none))).expires_at ≡ none
unfolding restored
filed-expires now wall string e = refl
filed-expires now wall list e = refl
filed-expires now wall hash e = refl

filed-HasContent :
    (now wall now' wall' : ℕ) (k : Bytes) (ty : ValueType) (v : Value)
    → v.type ≡ ty
    → Invariant.IsValid v.hash_value
    → HasContent ty v
        (restored now' wall' (filed_content ty (capture now wall k v) (blank k ty none)))
unfolding restored capture
filed-HasContent now wall now' wall' k string v e valid = refl
filed-HasContent now wall now' wall' k list v e valid = refl
filed-HasContent now wall now' wall' k hash v e valid =
    λ q. rw e (set_fields-entries v.hash_value q valid)

-- A value with a well-formed hash and no deadline that goes through Snapshot, the file and
-- LoadSnapshot comes back with its type, with the string, the elements or the value of every
-- field that belong to its type, and with no deadline.
pub reload-filed :
    (now wall read_at now' wall' : ℕ) (k : Bytes) (v : Value)
    → Invariant.IsValid v.hash_value
    → v.expires_at ≡ none
    → (v' : Value) × (reload now' wall' (filed_entry read_at (captured now wall k (some v)))
        ≡ some (strip v'))
      × (v'.type ≡ v.type)
      × HasContent v.type v v'
      × (v'.expires_at ≡ none)
unfolding capture
reload-filed now wall read_at now' wall' k v valid forever =
    let e = capture now wall k v in
    let unlimited : filed_deadline read_at (wall_deadline now wall v.expires_at) ≡ (false, none) =
      rw forever refl in
    let v' = restored now' wall' (filed_content v.type e (blank k v.type none)) in
    (
      v',
      ap
            (λ (x : Bool × Option ℤ).
              reload now' wall' (read_back (x.0, filed_content v.type e (blank k v.type x.1))))
            unlimited
          ∙ filed-none now' wall' v.type e,
      filed-type now' wall' v.type e none,
      filed-HasContent now wall now' wall' k v.type v refl valid,
      filed-expires now' wall' v.type e,
    )

-- A deadline ahead that goes through Snapshot and the file, and that is more than a millisecond
-- ahead on the wall clock when LoadSnapshot reads it, leaves the time that was left less the time
-- gone by on the wall clock, and less than two milliseconds less than that, as long as the
-- instants fit 63 bits and the wall clock has not gone back.
pub filed-deadline :
    (now wall read_at now' wall' d : ℕ)
    → now < d
    → wall ≤ wall'
    → read_at ≤ wall'
    → wall' + 1000000 < wall + (d - now) / 1000000 * 1000000
    → wall + (d - now) < 2 ^ 63
    → now' + (d - now) < 2 ^ 63
    → (left : ℕ) × (steady_deadline now' wall'
          (filed_deadline read_at (wall_deadline now wall (some (pos d)))).1
        ≡ some (pos (now' + left)))
      × (left + (wall' - wall) ≤ d - now)
      × (d - now < left + (wall' - wall) + 2000000)
filed-deadline now wall read_at now' wall' d ahead later read alive small small' =
    let end = wall + (d - now) / 1000000 * 1000000 in
    let left = end / 1000000 * 1000000 - wall' in
    let stored : to_int64 end ≡ pos end = ground arith in
    let cut : of_ms (to_ms (pos end)) ≡ pos (end / 1000000 * 1000000) = ground arith in
    let ahead_of : is_past read_at (some (pos (end / 1000000 * 1000000))) ≡ false = ground arith in
    let restart : to_int64 (now' + left) ≡ pos (now' + left) = ground arith in
    (left, rw (stored, cut, ahead_of, restart) refl, omega arith, omega arith)
