-- ===== src/Dispatcher/HandlerEffects.antt =====
-- Every handler of src/server/dispatcher.cpp, branch by branch.
use redis_cpp.Base.{
  ℕ, ◌≡◌, refl, inl, inr, Bool, true, false, Option, none, some, List, [], ◌∷◌, arith, Bool-cases,
  Option-cases, Bytes, str_eq, codes,
}
use redis_cpp.Base.Int.{ℤ}
use redis_cpp.Value.{ValueType, list, hash, Value}
use redis_cpp.Store.{Result, Store}
use redis_cpp.Store.Invariant.{IsValid, strip, flush_all-IsValid}
use redis_cpp.Store.View.{view, SameView-refl, delete_all_expired-SameView}
use redis_cpp.Store.Lookup.{read_entry-Reads, ttl-Reads}
use redis_cpp.Store.Strings.{set-Writes, del-lem}
use redis_cpp.Store.Lists.{lpush-IsChange, rpush-IsChange}
use redis_cpp.Store.Hashes.{hset-IsChange}
use redis_cpp.Store.HashDeletes.{hdel-lem, hdel_wrong, HdelEffect}
use redis_cpp.Store.Reads as ReadOps
use redis_cpp.Store.Reads.{read_entry}
use redis_cpp.Store.Writes
use redis_cpp.Resp.{RespValue}
use redis_cpp.Resp.Numbers.{parse_int64}
use redis_cpp.Dispatcher.Replies.{
  to_upper, answer_with, write_with, wrong_type_error, integer_of, bulk_of, array_of, pairs_of,
}
use redis_cpp.Dispatcher.Handlers.{
  do_ping, do_echo, do_set, do_get, do_del, do_exists, do_keys, do_flushall, do_expire, do_ttl,
  do_push, do_llen, do_lrange, do_hset, do_hget, do_hdel, do_hgetall, do_hlen, do_hexists, do_hkeys,
  complete_pairs, hset_with,
}
use redis_cpp.Dispatcher.Effects.{
  is_error, Effect, same-Effect, refused-Effect, written-Effect, answer_with-Effect,
  write_with-Effect, modify_entry-Effect, expire-IsValid, Fits-cases,
}

shows_integer : (a : Option ℤ) → is_error (integer_of a) ≡ false
shows_integer none = refl
shows_integer (some n) = refl

read-Effect {ℓ} :
    {A : Type ℓ} (ty : ValueType) (absent : Result A) (answer : Value → Result A)
    (show : Option A → RespValue)
    → ((v : Value) → answer (strip v) ≡ answer v)
    → (now : ℕ) (k : Bytes) (s : Store) → IsValid s
    → Effect now s (answer_with show (read_entry ty absent answer now k s))
read-Effect ty absent answer show stampless now k s valid =
    answer_with-Effect now s show _ (read_entry-Reads ty absent answer stampless now k s valid).same

module _ (now : ℕ) (name : Bytes) (s : Store) (valid : IsValid s) where
  pub do_ping-Effect : (args : List Bytes) → Effect now s (do_ping name args s)
  unfolding do_ping
  do_ping-Effect [] = refused-Effect _ valid
  do_ping-Effect (m ∷ []) = refused-Effect _ valid
  do_ping-Effect (m ∷ n ∷ args) = refused-Effect _ valid

  pub do_echo-Effect : (args : List Bytes) → Effect now s (do_echo name args s)
  unfolding do_echo
  do_echo-Effect (m ∷ []) = refused-Effect _ valid
  do_echo-Effect _ = refused-Effect _ valid

  pub do_set-Effect : (args : List Bytes) → Effect now s (do_set now name args s)
  unfolding do_set
  do_set-Effect (key ∷ value ∷ []) = written-Effect _ refl (set-Writes key value s valid).valid
  do_set-Effect (key ∷ value ∷ option ∷ seconds ∷ []) =
      elim (Bool-cases (str_eq (to_upper option) (codes "EX"))) [
        | inr other ↦ rw other (refused-Effect _ valid)
        | inl ex ↦ rw ex (elim (Option-cases (parse_int64 seconds)) [
          | inl e ↦ rw e (refused-Effect _ valid)
          | inr (n, e) ↦ rw e (
              written-Effect _ refl (
                expire-IsValid now key n (Writes.set key value s)
                  (set-Writes key value s valid).valid))
        ])
      ]
  do_set-Effect _ = refused-Effect _ valid

  pub do_get-Effect : (args : List Bytes) → Effect now s (do_get now name args s)
  unfolding do_get ReadOps.get
  do_get-Effect (key ∷ []) = read-Effect _ _ _ bulk_of (λ v. refl) now key s valid
  do_get-Effect _ = refused-Effect _ valid

  pub do_del-Effect : (args : List Bytes) → Effect now s (do_del now name args s)
  unfolding do_del
  do_del-Effect [] = refused-Effect _ valid
  do_del-Effect (key ∷ keys) = written-Effect _ refl (del-lem now (key ∷ keys) s valid).1.valid

  pub do_exists-Effect : (args : List Bytes) → Effect now s (do_exists now name args s)
  unfolding do_exists ReadOps.exists
  do_exists-Effect [] = refused-Effect _ valid
  do_exists-Effect (key ∷ keys) = same-Effect _ (delete_all_expired-SameView now _ s valid)

  pub do_keys-Effect : (args : List Bytes) → Effect now s (do_keys now name args s)
  unfolding do_keys ReadOps.keys
  do_keys-Effect (pattern ∷ []) = same-Effect _ (delete_all_expired-SameView now _ s valid)
  do_keys-Effect _ = refused-Effect _ valid

  pub do_flushall-Effect : (args : List Bytes) → Effect now s (do_flushall name args s)
  unfolding do_flushall
  do_flushall-Effect [] = written-Effect _ refl (flush_all-IsValid s)
  do_flushall-Effect _ = refused-Effect _ valid

  pub do_expire-Effect : (args : List Bytes) → Effect now s (do_expire now name args s)
  unfolding do_expire
  do_expire-Effect (key ∷ seconds ∷ []) = elim (Option-cases (parse_int64 seconds)) [
    | inl e ↦ rw e (refused-Effect _ valid)
    | inr (n, e) ↦ rw e (written-Effect _ refl (expire-IsValid now key n s valid))
  ]
  do_expire-Effect _ = refused-Effect _ valid

  pub do_ttl-Effect : (args : List Bytes) → Effect now s (do_ttl now name args s)
  unfolding do_ttl
  do_ttl-Effect (key ∷ []) = same-Effect _ (ttl-Reads now key s valid).same
  do_ttl-Effect _ = refused-Effect _ valid

  pub do_push-Effect :
      (left : Bool) (args : List Bytes) → Effect now s (do_push left now name args s)
  unfolding do_push Writes.lpush Writes.rpush
  do_push-Effect true (key ∷ value ∷ values) =
      modify_entry-Effect list _ (lpush-IsChange (value ∷ values)) now key s valid integer_of
        shows_integer
  do_push-Effect false (key ∷ value ∷ values) =
      modify_entry-Effect list _ (rpush-IsChange (value ∷ values)) now key s valid integer_of
        shows_integer
  do_push-Effect left _ = refused-Effect _ valid

  pub do_llen-Effect : (args : List Bytes) → Effect now s (do_llen now name args s)
  unfolding do_llen ReadOps.llen
  do_llen-Effect (key ∷ []) = read-Effect _ _ _ integer_of (λ v. refl) now key s valid
  do_llen-Effect _ = refused-Effect _ valid

  pub do_lrange-Effect : (args : List Bytes) → Effect now s (do_lrange now name args s)
  unfolding do_lrange ReadOps.lrange
  do_lrange-Effect (key ∷ start ∷ stop ∷ []) = elim (Option-cases (parse_int64 start)) [
    | inl e ↦ rw e (refused-Effect _ valid)
    | inr (a, e) ↦ rw e (elim (Option-cases (parse_int64 stop)) [
      | inl e' ↦ rw e' (refused-Effect _ valid)
      | inr (b, e') ↦ rw e' (read-Effect _ _ _ array_of (λ v. refl) now key s valid)
    ])
  ]
  do_lrange-Effect _ = refused-Effect _ valid

  pub do_hset-Effect : (args : List Bytes) → Effect now s (do_hset now name args s)
  unfolding do_hset Writes.hset
  do_hset-Effect [] = refused-Effect _ valid
  do_hset-Effect (key ∷ rest) = go (complete_pairs rest)
    where
      go : (o : Option (List (Bytes × Bytes))) → Effect now s (hset_with now name key o s)
      go none = refused-Effect _ valid
      go (some []) = refused-Effect _ valid
      go (some (p ∷ ps)) =
          modify_entry-Effect hash _ (hset-IsChange (p ∷ ps)) now key s valid integer_of
            shows_integer

  pub do_hget-Effect : (args : List Bytes) → Effect now s (do_hget now name args s)
  unfolding do_hget ReadOps.hget
  do_hget-Effect (key ∷ field ∷ []) = read-Effect _ _ _ bulk_of (λ v. refl) now key s valid
  do_hget-Effect _ = refused-Effect _ valid

  pub do_hdel-Effect : (args : List Bytes) → Effect now s (do_hdel now name args s)
  unfolding do_hdel
  do_hdel-Effect (key ∷ field ∷ fields) = elim (Fits-cases hash (view now key s)) [
    | inl fits ↦ go (view now key s) (hdel-lem (field ∷ fields) now key s valid fits)
    | inr (v, e, wrong) ↦
        rw (hdel_wrong (field ∷ fields) now key s v e wrong)
          (same-Effect wrong_type_error (SameView-refl now s valid))
  ]
    where
      go :
          (o : Option Value)
          → HdelEffect now (field ∷ fields) key s o (Writes.hdel (field ∷ fields) now key s)
          → Effect now s (write_with integer_of (Writes.hdel (field ∷ fields) now key s))
      go none (reply, same) =
          write_with-Effect now s integer_of _ shows_integer same.valid
            (λ h. absurd (ground (arith, h, reply)))
      go (some v) (reply, u) =
          write_with-Effect now s integer_of _ shows_integer u.valid
            (λ h. absurd (ground (arith, h, reply)))
  do_hdel-Effect _ = refused-Effect _ valid

  pub do_hgetall-Effect : (args : List Bytes) → Effect now s (do_hgetall now name args s)
  unfolding do_hgetall ReadOps.hgetall
  do_hgetall-Effect (key ∷ []) = read-Effect _ _ _ pairs_of (λ v. refl) now key s valid
  do_hgetall-Effect _ = refused-Effect _ valid

  pub do_hlen-Effect : (args : List Bytes) → Effect now s (do_hlen now name args s)
  unfolding do_hlen ReadOps.hlen
  do_hlen-Effect (key ∷ []) = read-Effect _ _ _ integer_of (λ v. refl) now key s valid
  do_hlen-Effect _ = refused-Effect _ valid

  pub do_hexists-Effect : (args : List Bytes) → Effect now s (do_hexists now name args s)
  unfolding do_hexists ReadOps.hexists
  do_hexists-Effect (key ∷ field ∷ []) = read-Effect _ _ _ integer_of (λ v. refl) now key s valid
  do_hexists-Effect _ = refused-Effect _ valid

  pub do_hkeys-Effect :
      (fields : Bool) (args : List Bytes) → Effect now s (do_hkeys fields now name args s)
  unfolding do_hkeys ReadOps.hkeys ReadOps.hvals
  do_hkeys-Effect true (key ∷ []) = read-Effect _ _ _ array_of (λ v. refl) now key s valid
  do_hkeys-Effect false (key ∷ []) = read-Effect _ _ _ array_of (λ v. refl) now key s valid
  do_hkeys-Effect fields _ = refused-Effect _ valid
