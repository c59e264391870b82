-- ===== src/Tests/Lifetimes.antt =====
-- Expiry, eviction and snapshots of src/store/store.cpp, on stores with a few keys.
use redis_cpp.Base.{◌≡◌, ◌⊎◌, true, none, arith, codes}
use redis_cpp.Base.Int.{pos}
use redis_cpp.HashTable
use redis_cpp.Value.{Value, hash}
use redis_cpp.Store.{evict_if_over_budget}
use redis_cpp.Store.View.{view}
use redis_cpp.Store.Evict.{Evicts, HasStopped, evict-lem}
use redis_cpp.Store.Expiry.{Expires, expire-Expires, expire_overflow}
use redis_cpp.Store.Writes
use redis_cpp.Store.Writes.{string_value, set_fields, set_list}
use redis_cpp.Tests.Stores.{
  key, text, with_text, with_text-IsValid, text_there, crowded, crowded-IsValid,
}

expire-Expires_example :
    Expires 0 key (pos 3) with_text (view 0 key with_text) (Writes.expire 0 key (pos 3) with_text)
expire-Expires_example = expire-Expires 0 key (pos 3) with_text with_text-IsValid

-- Three hundred years, in seconds, overflow; the deadline is before the start of the clock.
expire_overflow_example :
    ((Writes.expire 0 key (pos 9460800000) with_text).0 ≡ true)
    × (view 7 key (Writes.expire 0 key (pos 9460800000) with_text).1 ≡ none)
expire_overflow_example =
    expire_overflow 0 7 key 9460800000 with_text (string_value text) with_text-IsValid text_there
      (omega arith) (omega arith)

evict-lem_example :
    Evicts crowded (evict_if_over_budget crowded)
    × ((crowded.max_memory_bytes ≡ 0) ⊎ HasStopped (evict_if_over_budget crowded))
evict-lem_example = evict-lem crowded crowded-IsValid

abbrev small_hash : Value
small_hash = record (string_value text) {
  type = hash;
  hash_value = (HashTable.set_key (codes "f") (codes "1") HashTable.empty).1;
}
