-- ===== src/Dispatcher/ValueTwins.antt =====
-- Every handler of src/server/dispatcher.cpp that reads or changes a list or a hash, on two stores that show the same.
use redis_cpp.Base.{
  ℕ, ◌≡◌, refl, inl, inr, Bool, true, false, Option, none, some, List, [], ◌∷◌, Bytes, Option-cases,
}
use redis_cpp.Value.{ValueType, list, hash, Value}
use redis_cpp.Store.{Result, Store}
use redis_cpp.Store.Invariant.{strip}
use redis_cpp.Store.Alike.{Together, Alike}
use redis_cpp.Store.Lists.{lpush-IsChange, rpush-IsChange}
use redis_cpp.Store.Hashes.{hset-IsChange}
use redis_cpp.Store.Reads as ReadOps
use redis_cpp.Store.Writes
use redis_cpp.Store.Reads.{read_entry}
use redis_cpp.Resp.{RespValue}
use redis_cpp.Resp.Numbers.{parse_int64}
use redis_cpp.Dispatcher.Replies.{refused, answer_with, integer_of, bulk_of, array_of, pairs_of}
use redis_cpp.Dispatcher.Handlers.{
  do_push, do_llen, do_lrange, do_hset, do_hget, do_hdel, do_hgetall, do_hlen, do_hexists, do_hkeys,
  complete_pairs, hset_with,
}
use redis_cpp.Dispatcher.Twins.{equal, Twin, refused-Twin, read-Twin, modify-Twin, hdel-Twin}

module _ (shared : Bool) (now now' : ℕ) (name : Bytes) (s s' : Store)
    (together : Together shared now now') (a : Alike shared now now' s s') where
  no_change : (reply : RespValue) → Twin shared now now' equal (refused reply s) (refused reply s')
  no_change = refused-Twin shared now now' s s' together a

  reads {ℓ} :
      {A : Type ℓ} (ty : ValueType) (absent : Result A) (answer : Value → Result A)
      (show : Option A → RespValue)
      → ((v : Value) → answer (strip v) ≡ answer v)
      → (k : Bytes)
      → Twin shared now now' equal
          (answer_with show (read_entry ty absent answer now k s))
          (answer_with show (read_entry ty absent answer now' k s'))
  reads = read-Twin shared now now' s s' together a

  pub do_push-Twin :
      (left : Bool) (args : List Bytes)
      → Twin shared now now' equal (do_push left now name args s) (do_push left now' name args s')
  unfolding do_push Writes.lpush Writes.rpush
  do_push-Twin true (key ∷ value ∷ values) =
      modify-Twin shared now now' s s' together a list _ (lpush-IsChange (value ∷ values))
        (λ v. refl) integer_of key
  do_push-Twin false (key ∷ value ∷ values) =
      modify-Twin shared now now' s s' together a list _ (rpush-IsChange (value ∷ values))
        (λ v. refl) integer_of key
  do_push-Twin left _ = no_change _

  pub do_llen-Twin :
      (args : List Bytes)
      → Twin shared now now' equal (do_llen now name args s) (do_llen now' name args s')
  unfolding do_llen ReadOps.llen
  do_llen-Twin (key ∷ []) = reads _ _ _ integer_of (λ v. refl) key
  do_llen-Twin _ = no_change _

  pub do_lrange-Twin :
      (args : List Bytes)
      → Twin shared now now' equal (do_lrange now name args s) (do_lrange now' name args s')
  unfolding do_lrange ReadOps.lrange
  do_lrange-Twin (key ∷ start ∷ stop ∷ []) = elim (Option-cases (parse_int64 start)) [
    | inl e ↦ rw e (no_change _)
    | inr (m, e) ↦ rw e (elim (Option-cases (parse_int64 stop)) [
      | inl e' ↦ rw e' (no_change _)
      | inr (n, e') ↦ rw e' (reads _ _ _ array_of (λ v. refl) key)
    ])
  ]
  do_lrange-Twin _ = no_change _

  pub do_hset-Twin :
      (args : List Bytes)
      → Twin shared now now' equal (do_hset now name args s) (do_hset now' name args s')
  unfolding do_hset Writes.hset
  do_hset-Twin [] = no_change _
  do_hset-Twin (key ∷ rest) = go (complete_pairs rest)
    where
      go :
          (o : Option (List (Bytes × Bytes)))
          → Twin shared now now' equal (hset_with now name key o s) (hset_with now' name key o s')
      go none = no_change _
      go (some []) = no_change _
      go (some (p ∷ ps)) =
          modify-Twin shared now now' s s' together a hash _ (hset-IsChange (p ∷ ps)) (λ v. refl)
            integer_of key

  pub do_hget-Twin :
      (args : List Bytes)
      → Twin shared now now' equal (do_hget now name args s) (do_hget now' name args s')
  unfolding do_hget ReadOps.hget
  do_hget-Twin (key ∷ field ∷ []) = reads _ _ _ bulk_of (λ v. refl) key
  do_hget-Twin _ = no_change _

  pub do_hdel-Twin :
      (args : List Bytes)
      → Twin shared now now' equal (do_hdel now name args s) (do_hdel now' name args s')
  unfolding do_hdel
  do_hdel-Twin (key ∷ field ∷ fields) =
      hdel-Twin shared now now' s s' together a (field ∷ fields) integer_of key
  do_hdel-Twin _ = no_change _

  pub do_hgetall-Twin :
      (args : List Bytes)
      → Twin shared now now' equal (do_hgetall now name args s) (do_hgetall now' name args s')
  unfolding do_hgetall ReadOps.hgetall
  do_hgetall-Twin (key ∷ []) = reads _ _ _ pairs_of (λ v. refl) key
  do_hgetall-Twin _ = no_change _

  pub do_hlen-Twin :
      (args : List Bytes)
      → Twin shared now now' equal (do_hlen now name args s) (do_hlen now' name args s')
  unfolding do_hlen ReadOps.hlen
  do_hlen-Twin (key ∷ []) = reads _ _ _ integer_of (λ v. refl) key
  do_hlen-Twin _ = no_change _

  pub do_hexists-Twin :
      (args : List Bytes)
      → Twin shared now now' equal (do_hexists now name args s) (do_hexists now' name args s')
  unfolding do_hexists ReadOps.hexists
  do_hexists-Twin (key ∷ field ∷ []) = reads _ _ _ integer_of (λ v. refl) key
  do_hexists-Twin _ = no_change _

  pub do_hkeys-Twin :
      (fields : Bool) (args : List Bytes)
      → Twin shared now now' equal
          (do_hkeys fields now name args s)
          (do_hkeys fields now' name args s')
  unfolding do_hkeys ReadOps.hkeys ReadOps.hvals
  do_hkeys-Twin true (key ∷ []) = reads _ _ _ array_of (λ v. refl) key
  do_hkeys-Twin false (key ∷ []) = reads _ _ _ array_of (λ v. refl) key
  do_hkeys-Twin fields _ = no_change _
