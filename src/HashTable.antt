-- ===== src/HashTable.antt =====
-- src/store/hash_table.h: the hand-written hash table with separate chaining.
-- A table is its bucket vector and its counter of entries. Nodes are owned by their bucket, so a
-- chain is a list; `Get` returns a pointer into the table, and a write through it is `put_at`.
-- Capacities are powers of two below 2 ^ 48 and the counter counts nodes that exist in memory, so
-- neither `std::size_t` nor the exact quotient of `LoadFactor` rounds or wraps: the tests on the
-- load factor are multiplied out.
pub mod Nodes
pub mod Buckets
pub mod Rehash
pub mod Invariant
pub mod Methods
pub mod Sample
use Prim.Native.Nat.{bit_and, bit_xor, max}
use mathlib.Core.List.{flatten}
use redis_cpp.Base.{
  ℕ, zero, suc, ◌+◌, ◌-◌, ◌*◌, ◌/◌, ◌%◌, ◌^◌, Bool, true, false, not, Option, none, some, List, [],
  ◌∷◌, ◌++◌, map, ltb, leb, if◌then◌else◌, length, get_or, set, replicate, Bytes,
}
use redis_cpp.HashTable.Nodes.{Chain, find, assign, unlink}

pub record HashTable {ℓ} (V : Type ℓ) : Type ℓ where
  pub buckets : List (Chain V)
  pub num_entries : ℕ

abbrev pub initial_capacity : ℕ
initial_capacity = 16

abbrev pub growth_multiplier : ℕ
growth_multiplier = 2

-- FNV-1a on 64 bits.
unfoldable pub fnv1a : ℕ → Bytes → ℕ
fnv1a hash [] = hash
fnv1a hash (c ∷ key) = fnv1a (bit_xor hash c * 1099511628211 % 2 ^ 64) key

unfoldable pub hash_key : Bytes → ℕ
hash_key key = fnv1a 14695981039346656037 key

-- `HashKey(key) & (capacity - 1)`.
unfoldable pub bucket_index : Bytes → ℕ → ℕ
bucket_index key capacity = bit_and (hash_key key) (capacity - 1)

module _ {ℓ} {V : Type ℓ} where
  unfoldable pub empty : HashTable V
  empty = record { buckets = replicate initial_capacity []; num_entries = 0 }

  -- The chain in the bucket of a key.
  unfoldable pub chain_of : List (Chain V) → Bytes → Chain V
  chain_of buckets key = get_or buckets (bucket_index key (length buckets)) []

  -- Prepends a node to the bucket of its key.
  unfoldable pub link : Bytes → V → List (Chain V) → List (Chain V)
  link key value buckets =
      set buckets (bucket_index key (length buckets)) ((key, value) ∷ chain_of buckets key)

  -- The inner loop of `RehashTo`, over one chain of the old vector.
  unfoldable pub relink : Chain V → List (Chain V) → List (Chain V)
  relink [] new_buckets = new_buckets
  relink ((key, value) ∷ cur) new_buckets = relink cur (link key value new_buckets)

  unfoldable pub relink_all : List (Chain V) → List (Chain V) → List (Chain V)
  relink_all [] new_buckets = new_buckets
  relink_all (head ∷ heads) new_buckets = relink_all heads (relink head new_buckets)

  unfoldable pub rehash_to : ℕ → HashTable V → HashTable V
  rehash_to new_capacity t = record t { buckets = relink_all t.buckets (replicate new_capacity []) }

  unfoldable pub resize : HashTable V → HashTable V
  resize t = rehash_to (length t.buckets * growth_multiplier) t

  -- `LoadFactor() > 0.75`.
  abbrev pub is_overloaded : HashTable V → Bool
  is_overloaded t = ltb (3 * length t.buckets) (4 * t.num_entries)

  -- `LoadFactor() >= 0.75 / 4`.
  abbrev pub is_loaded_enough : HashTable V → Bool
  is_loaded_enough t = leb (3 * length t.buckets) (16 * t.num_entries)

  unfoldable pub maybe_shrink : HashTable V → HashTable V
  maybe_shrink t =
      if leb (length t.buckets) initial_capacity
      then t
      else if is_loaded_enough t
      then t
      else rehash_to (max (length t.buckets / growth_multiplier) initial_capacity) t

  unfoldable pub get : Bytes → HashTable V → Option V
  get key t = find key (chain_of t.buckets key)

  -- A write through the pointer that `Get(key)` returned; no write if it was null.
  unfoldable pub put_at : Bytes → V → HashTable V → HashTable V
  put_at key value t = record t {
    buckets =
        set t.buckets (bucket_index key (length t.buckets))
          (assign key value (chain_of t.buckets key));
  }

  unfoldable pub insert_new : Bytes → V → HashTable V → HashTable V
  insert_new key value t =
      let grown : HashTable V = record {
        buckets = link key value t.buckets;
        num_entries = t.num_entries + 1;
      } in
      if is_overloaded grown then resize grown else grown

  -- `Set`: true for an update of a key that was there.
  unfoldable pub set_key : Bytes → V → HashTable V → Bool × HashTable V
  set_key key value t = elim (get key t) [
    | some _ ↦ (true, put_at key value t)
    | none ↦ (false, insert_new key value t)
  ]

  -- `Delete`: whether anything was removed.
  unfoldable pub delete : Bytes → HashTable V → Bool × HashTable V
  delete key t = elim (get key t) [
    | none ↦ (false, t)
    | some _ ↦ (
      true,
      maybe_shrink (record {
        buckets =
            set t.buckets (bucket_index key (length t.buckets))
              (unlink key (chain_of t.buckets key));
        num_entries = t.num_entries - 1;
      }),
    )
  ]

  -- `Len`.
  abbrev pub len : HashTable V → ℕ
  len t = t.num_entries

  -- What `ForEach` visits, in its order.
  unfoldable pub entries : HashTable V → Chain V
  entries t = flatten t.buckets

  unfoldable pub keys : HashTable V → List Bytes
  keys t = map (λ e. e.0) (entries t)

  unfoldable pub clear : HashTable V → HashTable V
  clear t = empty

  -- The head of a chain, if there is one.
  abbrev pub first : Chain V → Chain V
  first [] = []
  first (e ∷ _) = e ∷ []

  -- The loop of `SampleKeys` with `left` attempts to go. `draw pos n` is the draw number `pos` from
  -- the generator, a number below `n`. The draws used are counted.
  unfoldable pub sample_loop : (ℕ → ℕ → ℕ) → HashTable V → ℕ → ℕ → ℕ → Chain V → Chain V × ℕ
  sample_loop draw t count zero pos out = (out, pos)
  sample_loop draw t count (suc left) pos out =
      let head = get_or t.buckets (draw pos (length t.buckets)) [] in
      let rest = sample_loop draw t count left (pos + 1) (out ++ first head) in
      if ltb (length out) count then rest else (out, pos)

  unfoldable pub sample_keys : (ℕ → ℕ → ℕ) → ℕ → ℕ → HashTable V → Chain V × ℕ
  sample_keys draw count pos t =
      if leb t.num_entries 0 then ([], pos) else sample_loop draw t count (count * 20) pos []
