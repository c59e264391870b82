-- ===== src/Tests/Stores.antt =====
-- Stores with a few keys, for the operations of src/store/store.cpp.
use redis_cpp.Base.{◌≡◌, refl, none, some, List, [], ◌∷◌, codes, Bytes, str_eq}
use redis_cpp.HashTable.Invariant.{get-empty}
use redis_cpp.Value.{list, hash}
use redis_cpp.Store.{Store, new_store, is_expired}
use redis_cpp.Store.Invariant.{IsValid, new_store-IsValid}
use redis_cpp.Store.View.{view, Writes-view}
use redis_cpp.Store.Lookup.{view-absent}
use redis_cpp.Store.Modify.{Fits}
use redis_cpp.Store.Strings.{set-Writes}
use redis_cpp.Store.Lists.{Pushes, rpush-Pushes}
use redis_cpp.Store.Hashes.{hset-Writes}
use redis_cpp.Store.Writes
use redis_cpp.Store.Writes.{string_value, set_fields, set_list}

abbrev pub key : Bytes
key = codes "k"

abbrev pub other : Bytes
other = codes "other"

abbrev pub text : Bytes
text = codes "v"

abbrev pub two_items : List Bytes
two_items = codes "a" ∷ codes "b" ∷ []

abbrev pub two_fields : List (Bytes × Bytes)
two_fields = (codes "f", codes "1") ∷ (codes "g", codes "2") ∷ []

abbrev pub empty_store : Store
empty_store = new_store (λ position buckets. 0)

pub empty_store-IsValid : IsValid empty_store
empty_store-IsValid = new_store-IsValid (λ position buckets. 0)

pub nothing_there : view 0 key empty_store ≡ none
nothing_there = view-absent 0 key empty_store (get-empty key)

-- A store with one string.
abbrev pub with_text : Store
with_text = Writes.set key text empty_store

pub with_text-IsValid : IsValid with_text
with_text-IsValid = (set-Writes key text empty_store empty_store-IsValid).valid

pub with_text-unlimited : with_text.max_memory_bytes ≡ 0
with_text-unlimited = (set-Writes key text empty_store empty_store-IsValid).budget

pub text_there : view 0 key with_text ≡ some (string_value text)
unfolding str_eq is_expired
text_there = Writes-view (set-Writes key text empty_store empty_store-IsValid) refl 0 key

-- A store with one list, and one with one hash.
abbrev pub with_list : Store
with_list = (Writes.rpush two_items 0 key empty_store).1

pub list_pushed : Pushes 0 key two_items empty_store (Writes.rpush two_items 0 key empty_store)
list_pushed =
    rw nothing_there at
      (rpush-Pushes two_items 0 key empty_store empty_store-IsValid (rw nothing_there tt))

pub list-Fits : Fits list (view 0 key with_list)
unfolding str_eq is_expired
list-Fits = rw (Writes-view list_pushed.write refl 0 key, nothing_there) refl

abbrev pub with_hash : Store
with_hash = (Writes.hset two_fields 0 key empty_store).1

pub with_hash-IsValid : IsValid with_hash
with_hash-IsValid =
    (hset-Writes two_fields 0 key empty_store empty_store-IsValid
      (rw nothing_there tt)).writes.valid

pub hash-Fits : Fits hash (view 0 key with_hash)
unfolding str_eq is_expired
hash-Fits =
    let w =
      (hset-Writes two_fields 0 key empty_store empty_store-IsValid (rw nothing_there tt)).writes in
    rw (Writes-view w refl 0 key, nothing_there) refl

-- The string again, with a budget that it is over.
abbrev pub crowded : Store
crowded = record with_text { max_memory_bytes = 10 }

pub crowded-IsValid : IsValid crowded
crowded-IsValid =
    let v = with_text-IsValid in
    record { table = v.table; accounted = v.accounted; hashes = v.hashes }
