-- ===== src/Resp.antt =====
-- src/resp/resp_value.h and src/resp/resp_value.cpp: replies and their wire format.
-- The tagged struct is a data type with a constructor for each static factory of the source.
pub mod Numbers
pub mod Parser
pub mod RoundTrip
pub mod Feeding
pub mod Shrinking
pub mod Ends
pub mod Inline
use redis_cpp.Base.{ℕ, zero, suc, ◌+◌, List, [], ◌∷◌, ◌++◌, codes, length, Bytes}
use redis_cpp.Base.Int.{ℤ, pos}
use redis_cpp.Resp.Numbers.{to_string}

mutual
  pub data RespValue : Type 0 where
    simple_string : Bytes → RespValue
    error : Bytes → RespValue
    integer : ℤ → RespValue
    bulk_string : Bytes → RespValue
    nil_bulk_string : RespValue
    array : Items → RespValue
    nil_array : RespValue

  pub data Items : Type 0 where
    no_items : Items
    item : RespValue → Items → Items

unfoldable pub count_items : Items → ℕ
count_items no_items = 0
count_items (item _ items) = suc (count_items items)

abbrev pub crlf : Bytes
crlf = 13 ∷ 10 ∷ []

unfoldable mutual
  pub encode : RespValue → Bytes
  encode (simple_string s) = b'+' ∷ (s ++ crlf)
  encode (error s) = b'-' ∷ (s ++ crlf)
  encode (integer n) = b':' ∷ (to_string n ++ crlf)
  encode (bulk_string s) = b'$' ∷ (to_string (pos (length s)) ++ (crlf ++ (s ++ crlf)))
  encode nil_bulk_string = codes "$-1" ++ crlf
  encode (array items) =
      b'*' ∷ (to_string (pos (count_items items)) ++ (crlf ++ encode_items items))
  encode nil_array = codes "*-1" ++ crlf

  pub encode_items : Items → Bytes
  encode_items no_items = []
  encode_items (item v items) = encode v ++ encode_items items

-- `StringsToBulkArray`, and the items that `AofWriter::Append` builds.
unfoldable pub bulk_items : List Bytes → Items
bulk_items [] = no_items
bulk_items (s ∷ rest) = item (bulk_string s) (bulk_items rest)
