-- ===== src/Value.antt =====
-- src/store/value.h: the tagged struct that a key holds.
use redis_cpp.Base.{ℕ, Bool, true, false, Option, none, List, [], Bytes}
use redis_cpp.Base.Int.{ℤ}
use redis_cpp.HashTable
use redis_cpp.HashTable.{HashTable}

-- `kString`, `kList`, `kHash`.
pub data ValueType : Type 0 where
  string list hash : ValueType

-- `v.type == ty`.
abbrev pub type_eq : ValueType → ValueType → Bool
type_eq string string = true
type_eq list list = true
type_eq hash hash = true
type_eq string list = false
type_eq string hash = false
type_eq list string = false
type_eq list hash = false
type_eq hash string = false
type_eq hash list = false

-- A time point is a signed 64-bit count of nanoseconds.
pub record Value : Type 0 where
  pub type : ValueType
  pub str_value : Bytes
  pub list_value : List Bytes
  pub hash_value : HashTable Bytes
  pub expires_at : Option ℤ
  pub last_accessed_seq : ℕ

-- `Value v; v.type = ty;`
abbrev pub fresh_value : ValueType → Value
fresh_value ty = record {
  type = ty;
  str_value = [];
  list_value = [];
  hash_value = HashTable.empty;
  expires_at = none;
  last_accessed_seq = 0;
}
