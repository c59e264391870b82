-- ===== src/Dispatcher/Replies.antt =====
-- Outcomes of a command of src/server/dispatcher.cpp, its error replies, and replies made of a
-- `Result` of the store.
use redis_cpp.Base.{
  ℕ, ◌+◌, ◌-◌, ◌^◌, Bool, true, false, ◌&&◌, Option, none, some, List, [], ◌∷◌, ◌++◌, if◌then◌else◌,
  ltb, leb, codes, Bytes,
}
use redis_cpp.Base.Int.{ℤ, pos, negsuc}
use redis_cpp.Resp.{
  RespValue, simple_string, error, integer, bulk_string, nil_bulk_string, array, no_items,
  bulk_items,
}
use redis_cpp.Store.{Result, no_error, wrong_type, Store}

pub record Outcome : Type 0 where
  pub reply : RespValue
  pub store : Store
  pub logged : Bool

-- `std::toupper` and `std::tolower` in the C locale.
abbrev pub to_upper_byte : ℕ → ℕ
to_upper_byte c = if leb 97 c && leb c 122 then c - 32 else c

abbrev pub to_lower_byte : ℕ → ℕ
to_lower_byte c = if leb 65 c && leb c 90 then c + 32 else c

unfoldable pub to_upper : Bytes → Bytes
to_upper [] = []
to_upper (c ∷ s) = to_upper_byte c ∷ to_upper s

unfoldable pub to_lower : Bytes → Bytes
to_lower [] = []
to_lower (c ∷ s) = to_lower_byte c ∷ to_lower s

unfoldable pub wrong_args_error : Bytes → RespValue
wrong_args_error cmd_original =
    error
      (codes "ERR wrong number of arguments for '" ++ (to_lower cmd_original ++ codes "' command"))

unfoldable pub wrong_type_error : RespValue
wrong_type_error = error (codes "WRONGTYPE Operation against a key holding the wrong kind of value")

unfoldable pub not_integer_error : RespValue
not_integer_error = error (codes "ERR value is not an integer or out of range")

-- A saturating narrowing to `int`.
unfoldable pub clamp_to_int : ℤ → ℤ
clamp_to_int (pos n) = if ltb (2 ^ 31 - 1) n then pos (2 ^ 31 - 1) else pos n
clamp_to_int (negsuc n) = if ltb (2 ^ 31 - 1) n then negsuc (2 ^ 31 - 1) else negsuc n

-- A reply with the store as it is, one after a read, and one after a logged write.
abbrev pub refused : RespValue → Store → Outcome
refused reply s = record { reply = reply; store = s; logged = false }

abbrev pub answered : RespValue → Store → Outcome
answered reply s = record { reply = reply; store = s; logged = false }

abbrev pub written : RespValue → Store → Outcome
written reply s = record { reply = reply; store = s; logged = true }

abbrev pub ok_reply : RespValue
ok_reply = simple_string (codes "OK")

abbrev pub bulk_array : List Bytes → RespValue
bulk_array items = array (bulk_items items)

-- The replies made of a `Result`. `*result.value` is read only where there is a value.
abbrev pub integer_of : Option ℤ → RespValue
integer_of none = integer (pos 0)
integer_of (some n) = integer n

abbrev pub bulk_of : Option Bytes → RespValue
bulk_of none = nil_bulk_string
bulk_of (some s) = bulk_string s

abbrev pub array_of : Option (List Bytes) → RespValue
array_of none = array no_items
array_of (some items) = bulk_array items

abbrev pub flatten_pairs : List (Bytes × Bytes) → List Bytes
flatten_pairs [] = []
flatten_pairs ((field, val) ∷ pairs) = field ∷ val ∷ flatten_pairs pairs

abbrev pub pairs_of : Option (List (Bytes × Bytes)) → RespValue
pairs_of none = array no_items
pairs_of (some pairs) = bulk_array (flatten_pairs pairs)

abbrev pub is_ok {ℓ} : {A : Type ℓ} → Result A → Bool
is_ok r = elim r.error [ no_error ↦ true | wrong_type ↦ false ]

abbrev pub answer_with {ℓ} : {A : Type ℓ} → (Option A → RespValue) → Result A × Store → Outcome
answer_with show (r, s) = if is_ok r then answered (show r.value) s else answered wrong_type_error s

abbrev pub write_with {ℓ} : {A : Type ℓ} → (Option A → RespValue) → Result A × Store → Outcome
write_with show (r, s) = if is_ok r then written (show r.value) s else answered wrong_type_error s
