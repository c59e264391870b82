-- ===== src/Dispatcher/ReplyTypes.antt =====
-- The type of reply that each command of src/server/dispatcher.cpp gives, and that no line of a reply
-- ends before its time.
use redis_cpp.Base.{
  ℕ, ◌≡◌, refl, inl, inr, Bool, true, false, ◌||◌, Option, none, some, if◌then◌else◌, List, [], ◌∷◌,
  ◌++◌, arith, ◌==◌, Bool-cases, Bytes, codes, All, All-append,
}
use redis_cpp.Base.Int.{ℤ}
use redis_cpp.Store.{Result, Store}
use redis_cpp.Resp.{
  RespValue, simple_string, error, integer, bulk_string, nil_bulk_string, array, Items, no_items,
  item, bulk_items,
}
use redis_cpp.Dispatcher.{
  Command, ping, echo, set, get, del, exists, keys, flushall, expire, ttl, lpush, rpush, llen,
  lrange, hset, hget, hdel, hgetall, hlen, hexists, hkeys, hvals, unknown,
}
use redis_cpp.Dispatcher.Replies.{
  to_lower, is_ok, answer_with, write_with, wrong_type_error, not_integer_error, integer_of,
  bulk_of, array_of, pairs_of, flatten_pairs,
}

-- The types of reply: a status, a status or a string, a string or nothing, a number, and an array
-- of strings; a name that is no command has an error for its reply.
pub data ReplyType : Type 0 where
  status greeting text number listing failure : ReplyType

abbrev pub reply_type : Command → ReplyType
reply_type ping = greeting
reply_type echo = text
reply_type set = status
reply_type get = text
reply_type del = number
reply_type exists = number
reply_type keys = listing
reply_type flushall = status
reply_type expire = number
reply_type ttl = number
reply_type lpush = number
reply_type rpush = number
reply_type llen = number
reply_type lrange = listing
reply_type hset = number
reply_type hget = text
reply_type hdel = number
reply_type hgetall = listing
reply_type hlen = number
reply_type hexists = number
reply_type hkeys = listing
reply_type hvals = listing
reply_type unknown = failure

-- A text with no byte of a line end.
abbrev pub IsClean : Bytes → Type 0
IsClean = All (λ c. (c == 13 || c == 10) ≡ false)

abbrev pub AreBulk : Items → Type 0
AreBulk no_items = Unit
AreBulk (item (bulk_string s) items) = AreBulk items
AreBulk (item _ items) = ⊥

-- A reply of a type, or an error. What Encode writes as a line has no line end in it.
abbrev pub HasType : RespValue → ReplyType → Type 0
HasType (error e) ty = IsClean e
HasType (simple_string s) status = IsClean s
HasType (simple_string s) greeting = IsClean s
HasType (bulk_string s) greeting = Unit
HasType (bulk_string s) text = Unit
HasType nil_bulk_string text = Unit
HasType (integer n) number = Unit
HasType (array items) listing = AreBulk items
HasType _ _ = ⊥

pub to_lower-IsClean : (s : Bytes) → IsClean s → IsClean (to_lower s)
unfolding to_lower
to_lower-IsClean [] h = tt
to_lower-IsClean (c ∷ s) (h, hs) = (ground (arith, h), to_lower-IsClean s hs)

pub bulk_items-AreBulk : (texts : List Bytes) → AreBulk (bulk_items texts)
unfolding bulk_items
bulk_items-AreBulk [] = tt
bulk_items-AreBulk (s ∷ texts) = bulk_items-AreBulk texts

-- The test, for the texts that are written out.
unfoldable pub is_clean : Bytes → Bool
is_clean [] = true
is_clean (c ∷ s) = if c == 13 || c == 10 then false else is_clean s

pub is_clean-IsClean : (s : Bytes) → is_clean s ≡ true → IsClean s
unfolding is_clean
is_clean-IsClean [] h = tt
is_clean-IsClean (c ∷ s) h = elim (Bool-cases (c == 13 || c == 10)) [
  | inl ends ↦ absurd (cc (rw ends at h))
  | inr fine ↦ (fine, is_clean-IsClean s (rw fine at h))
]

-- A text between two fixed ones.
pub around-IsClean :
    (before s behind : Bytes)
    → is_clean before ≡ true
    → IsClean s
    → is_clean behind ≡ true
    → IsClean (before ++ (s ++ behind))
around-IsClean before s behind b h e =
    let Ok = λ (c : ℕ). (c == 13 || c == 10) ≡ false in
    All-append Ok before (s ++ behind) (is_clean-IsClean before b)
      (All-append Ok s behind h (is_clean-IsClean behind e))

pub wrong_type-HasType : (ty : ReplyType) → HasType wrong_type_error ty
unfolding wrong_type_error is_clean
wrong_type-HasType ty =
    is_clean-IsClean (codes "WRONGTYPE Operation against a key holding the wrong kind of value")
      refl

pub not_integer-HasType : (ty : ReplyType) → HasType not_integer_error ty
unfolding not_integer_error is_clean
not_integer-HasType ty = is_clean-IsClean (codes "ERR value is not an integer or out of range") refl

pub ok-IsClean : IsClean (codes "OK")
unfolding is_clean
ok-IsClean = is_clean-IsClean (codes "OK") refl

module _ {ℓ} {A : Type ℓ} (ty : ReplyType) (show : Option A → RespValue)
    (typed : (a : Option A) → HasType (show a) ty) (r : Result A × Store) where
  pub answer_with-HasType : HasType (answer_with show r).reply ty
  answer_with-HasType = elim (Bool-cases (is_ok r.0)) [
    | inl ok ↦ rw ok (typed r.0.value)
    | inr wrong ↦ rw wrong (wrong_type-HasType ty)
  ]

  pub write_with-HasType : HasType (write_with show r).reply ty
  write_with-HasType = elim (Bool-cases (is_ok r.0)) [
    | inl ok ↦ rw ok (typed r.0.value)
    | inr wrong ↦ rw wrong (wrong_type-HasType ty)
  ]

pub integer_of-HasType : (a : Option ℤ) → HasType (integer_of a) number
integer_of-HasType none = tt
integer_of-HasType (some n) = tt

pub bulk_of-HasType : (a : Option Bytes) → HasType (bulk_of a) text
bulk_of-HasType none = tt
bulk_of-HasType (some s) = tt

pub array_of-HasType : (a : Option (List Bytes)) → HasType (array_of a) listing
array_of-HasType none = tt
array_of-HasType (some texts) = bulk_items-AreBulk texts

pub pairs_of-HasType : (a : Option (List (Bytes × Bytes))) → HasType (pairs_of a) listing
pairs_of-HasType none = tt
pairs_of-HasType (some pairs) = bulk_items-AreBulk (flatten_pairs pairs)
