-- ===== src/Tests/Persistence.antt =====
-- Files of src/persistence/rdb.cpp, with one string in them.
use redis_cpp.Value.{Value}
use redis_cpp.Base.Int.{pos}
use redis_cpp.HashTable.Invariant.{empty-IsValid as empty_table-IsValid}
use redis_cpp.Store.Invariant.{strip}
use redis_cpp.Store.Writes.{string_value}
use redis_cpp.Store.Snapshot.{wall_deadline, steady_deadline}
use redis_cpp.Rdb.Entries.{filed_deadline}
use redis_cpp.Rdb.Content.{HasContent, reload-filed, filed-deadline}
use redis_cpp.Base.{
  ◌-◌, ◌+◌, ℕ, ◌≡◌, ◌≢◌, ◌^◌, ◌<◌, ◌≤◌, refl, true, false, none, some, List, [], ◌∷◌, ◌++◌, arith,
  length, take, drop, ◌⊎◌, codes, Bytes, All,
}
use redis_cpp.Value.{string}
use redis_cpp.Store.{new_store, is_expired}
use redis_cpp.Store.Invariant.{IsValid, peek}
use redis_cpp.Store.View.{view}
use redis_cpp.Store.Snapshot.{SnapshotEntry, snapshot}
use redis_cpp.Rdb.{FileSystem, Files, image, payload, store_image, save_rdb, load_rdb}
use redis_cpp.Rdb.Checksum.{IsByte}
use redis_cpp.Rdb.Corruption.{load_rdb-changed}
use redis_cpp.Rdb.Reloading.{HasKept, filed_entry, save_rdb-load_rdb, Stores}
use redis_cpp.Store.Snapshot.Loading.{reload}
use redis_cpp.Store.Snapshot.Reload.{captured}
use redis_cpp.Rdb.Entries.{Writable}
use redis_cpp.Tests.Stores.{key, text, with_text, with_text-IsValid, empty_store}

abbrev pub disk : FileSystem
disk = record { opens = true; writes = true; flushed = 1000; renames = true; removes = true }

abbrev pub files : Files
files = record { file = none; tmp = none }

abbrev pub entry : SnapshotEntry
entry = record {
  key = key;
  type = string;
  str_value = text;
  list_value = [];
  hash_value = [];
  expires_at_wall = none;
}

one_entry : snapshot 5 7 with_text ≡ entry ∷ []
unfolding snapshot redis_cpp.Store.Snapshot.capture_all redis_cpp.Store.Snapshot.capture
    redis_cpp.HashTable.entries redis_cpp.Store.Writes.set redis_cpp.HashTable.set_key
    mathlib.Core.List.flatten redis_cpp.Store.evict_if_over_budget
    redis_cpp.Store.Writes.store_value redis_cpp.Store.touch redis_cpp.HashTable.put_at
    redis_cpp.HashTable.get redis_cpp.HashTable.Nodes.find redis_cpp.HashTable.chain_of
    redis_cpp.Base.get_or redis_cpp.HashTable.empty redis_cpp.Base.replicate
    redis_cpp.HashTable.bucket_index redis_cpp.HashTable.hash_key redis_cpp.HashTable.fnv1a
    redis_cpp.HashTable.insert_new redis_cpp.HashTable.link redis_cpp.HashTable.Nodes.assign
    redis_cpp.Base.str_eq redis_cpp.HashTable.resize is_expired
one_entry = refl

entry-Writable : Writable entry
entry-Writable = record { key = omega arith; deadline = tt; content = omega arith }

pub one_entry-Writable : All Writable (snapshot 5 7 with_text)
one_entry-Writable = rw one_entry (entry-Writable, tt)

pub few_entries : length (snapshot 5 7 with_text) < 2 ^ 64
few_entries = rw one_entry (omega arith)

pub whole : HasKept disk (image (snapshot 5 7 with_text))
unfolding image payload redis_cpp.Rdb.write_entries redis_cpp.Rdb.write_entry
    redis_cpp.Rdb.write_deadline redis_cpp.Rdb.write_content redis_cpp.Wire.write_le
whole = rw one_entry (omega arith)

pub saved : (save_rdb disk 5 7 with_text files).0 ≡ true
unfolding save_rdb store_image
saved = refl

save_rdb-load_rdb_example :
    let r = load_rdb (save_rdb disk 5 7 with_text files).1.file 8 9 10 empty_store in
    (r.0 ≡ true)
    × IsValid r.1
    × (peek key r.1 ≡ reload 9 10 (filed_entry 8 (captured 5 7 key (view 5 key with_text))))
save_rdb-load_rdb_example =
    save_rdb-load_rdb disk files 5 7 9 8 10 with_text empty_store key with_text-IsValid refl
      one_entry-Writable few_entries whole saved

-- The first byte of an image of no entries is that of "GRDB".
image_head : image [] ≡ [] ++ (71 ∷ drop 1 (image []))
unfolding image payload
image_head = refl

payload_bytes : All IsByte (payload [])
unfolding payload redis_cpp.Rdb.write_entries redis_cpp.Wire.write_le
payload_bytes = omega arith

load_rdb-changed_example :
    load_rdb (some (64 ∷ drop 1 (image []))) 8 9 10 with_text ≡ (false, with_text)
load_rdb-changed_example =
    load_rdb-changed [] [] (drop 1 (image [])) 71 64 8 9 10 with_text image_head payload_bytes
      (omega arith) (omega arith)

reload-filed_example :
    (v' : Value) × (reload 9 10 (filed_entry 8 (captured 5 7 key (some (string_value text))))
      ≡ some (strip v'))
    × (v'.type ≡ string)
    × HasContent string (string_value text) v'
    × (v'.expires_at ≡ none)
reload-filed_example = reload-filed 5 7 8 9 10 key (string_value text) empty_table-IsValid refl

-- Ten seconds to go; the snapshot is read a nanosecond later.
filed-deadline_example :
    (left : ℕ) × (steady_deadline 3 6
        (filed_deadline 6 (wall_deadline 0 5 (some (pos 10000000000)))).1
      ≡ some (pos (3 + left)))
    × (left + (6 - 5) ≤ 10000000000 - 0)
    × (10000000000 - 0 < left + (6 - 5) + 2000000)
filed-deadline_example =
    filed-deadline 0 5 6 3 6 10000000000 (omega arith) (omega arith) (omega arith) (omega arith)
      (omega arith) (omega arith)
