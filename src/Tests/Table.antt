-- ===== src/Tests/Table.antt =====
-- A table of src/store/hash_table.h with two keys.
use redis_cpp.Base.{ℕ, ◌≡◌, none, some, codes}
use redis_cpp.HashTable.{HashTable, empty, get, set_key, delete}
use redis_cpp.HashTable.Invariant.{IsValid, Binds, is_some, empty-IsValid}
use redis_cpp.HashTable.Methods.{set_key-Binds, delete-Binds}

abbrev one_key : HashTable ℕ
one_key = (set_key (codes "a") 1 empty).1

one_key-IsValid : IsValid one_key
one_key-IsValid = (set_key-Binds (codes "a") 1 empty empty-IsValid).1.valid

set_key-Binds_example :
    ((set_key (codes "b") 2 one_key).0 ≡ is_some (get (codes "b") one_key))
    × Binds one_key (codes "b") (some 2) (set_key (codes "b") 2 one_key).1
set_key-Binds_example = set_key-Binds (codes "b") 2 one_key one_key-IsValid

delete-Binds_example :
    ((delete (codes "a") one_key).0 ≡ is_some (get (codes "a") one_key))
    × Binds one_key (codes "a") none (delete (codes "a") one_key).1
delete-Binds_example = delete-Binds (codes "a") one_key one_key-IsValid
