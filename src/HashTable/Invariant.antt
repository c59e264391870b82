-- ===== src/HashTable/Invariant.antt =====
-- When a table of src/store/hash_table.h is well formed, what it means to bind a key in it, and the
-- steps that the methods share: the fresh table, a rehash, the replacement of one chain.
use Prim.Native.Nat.{◌*◌, ◌^◌}
use redis_cpp.Base.{
  ℕ, ◌+◌, ◌%◌, ◌≤◌, ◌≡◌, ◌∙◌, Bool, true, false, none, some, Option, [], arith, if◌then◌else◌,
  Bytes, str_eq, str_eq_refl, length, length-replicate,
}
use redis_cpp.Base.Bits.{bit_and_mask-mod}
use redis_cpp.HashTable.Nodes.{Chain, total, weight}
use redis_cpp.HashTable.Buckets.{IsPlaced, Rebinds}
use redis_cpp.HashTable.Rehash.{
  rehash_to-SameBindings, replicate-IsPlaced, find-replicate, total-replicate,
}
use redis_cpp.HashTable.{HashTable, hash_key, bucket_index, empty, rehash_to, get, entries}

abbrev pub is_some {ℓ} : {A : Type ℓ} → Option A → Bool
is_some none = false
is_some (some a) = true

module _ {ℓ} {V : Type ℓ} where
  abbrev pub one : Bytes → V → ℕ
  one k v = 1

  pub record IsValid (t : HashTable V) : Type ℓ where
    pub exponent : ℕ
    pub capacity : length t.buckets ≡ 2 ^ exponent
    pub roomy : 16 ≤ length t.buckets
    pub sparse : 4 * t.num_entries ≤ 3 * length t.buckets
    pub counted : total one (entries t) ≡ t.num_entries
    pub placed : IsPlaced t.buckets

  -- `t'` is `t` with `o` bound to the key `k`.
  pub record Binds (t : HashTable V) (k : Bytes) (o : Option V) (t' : HashTable V) : Type ℓ where
    pub valid : IsValid t'
    pub reads : (q : Bytes) → get q t' ≡ (if str_eq k q then o else get q t)
    pub totals :
        (w : Bytes → V → ℕ)
        → total w (entries t') + weight w k (get k t) ≡ total w (entries t) + weight w k o

  pub empty-IsValid : IsValid empty
  unfolding empty entries
  empty-IsValid = record {
    exponent = 4;
    capacity = length-replicate 16 [];
    roomy = omega (arith, length-replicate {A = Chain V} 16 []);
    sparse = omega arith;
    counted = total-replicate 16 one;
    placed = replicate-IsPlaced 16;
  }

  pub get-empty : (q : Bytes) → get {V = V} q empty ≡ none
  unfolding get empty
  get-empty q = find-replicate 16 q

  pub total-empty : (w : Bytes → V → ℕ) → total w (entries empty) ≡ 0
  unfolding entries empty
  total-empty w = total-replicate 16 w

  -- In a well-formed table the bucket that the mask selects is the remainder of the hash by the
  -- number of buckets, a power of two.
  pub bucket_index-mod :
      (t : HashTable V) (v : IsValid t) (key : Bytes)
      → bucket_index key (length t.buckets) ≡ hash_key key % 2 ^ v.exponent
  unfolding bucket_index
  bucket_index-mod t v key = rw v.capacity (bit_and_mask-mod v.exponent (hash_key key))

  -- A replacement of one chain in `t` that gave `t₁`, rehashed to another capacity.
  pub rehash-Binds :
      (t t₁ : HashTable V) (n e : ℕ) (k : Bytes) (o : Option V)
      → IsValid t
      → Rebinds t.buckets k o t₁.buckets
      → t₁.num_entries + weight one k (get k t) ≡ t.num_entries + weight one k o
      → n ≡ 2 ^ e
      → 16 ≤ n
      → 4 * t₁.num_entries ≤ 3 * n
      → Binds t k o (rehash_to n t₁)
  unfolding get entries
  rehash-Binds t t₁ n e k o v r count power big sparse =
      let (same, width) = rehash_to-SameBindings n t₁ (omega arith) r.placed in
      record {
        valid = record {
          exponent = e;
          capacity = width ∙ power;
          roomy = rw width big;
          sparse = rw width (unfold rehash_to in sparse);
          counted =
              same.totals one ∙ unfold rehash_to in omega (arith, r.totals one, v.counted, count);
          placed = same.placed;
        };
        reads = λ q. same.reads q ∙ r.reads q;
        totals = λ w. omega (arith, same.totals w, r.totals w);
      }

  -- A replacement of one chain, with the load still in bounds.
  pub Rebinds-Binds :
      (t t' : HashTable V) (k : Bytes) (o : Option V)
      → IsValid t
      → Rebinds t.buckets k o t'.buckets
      → t'.num_entries + weight one k (get k t) ≡ t.num_entries + weight one k o
      → 4 * t'.num_entries ≤ 3 * length t'.buckets
      → Binds t k o t'
  unfolding get entries
  Rebinds-Binds t t' k o v r count sparse = record {
    valid = record {
      exponent = v.exponent;
      capacity = r.width ∙ v.capacity;
      roomy = rw r.width v.roomy;
      sparse = sparse;
      counted = omega (arith, r.totals one, v.counted);
      placed = r.placed;
    };
    reads = r.reads;
    totals = r.totals;
  }

  -- Two bindings of one key, the second over the first.
  pub Binds-trans :
      {t₀ t₁ t₂ : HashTable V} {k : Bytes} {o o' : Option V}
      → Binds t₀ k o t₁
      → Binds t₁ k o' t₂
      → Binds t₀ k o' t₂
  Binds-trans {t₀} {t₁} {k = k} {o = o} a b = record {
    valid = b.valid;
    reads = λ q. ground (arith, a.reads q, b.reads q);
    totals = λ w.
        let bound : get k t₁ ≡ o = a.reads k ∙ rw (str_eq_refl k) in
        omega (arith, a.totals w, rw bound at (b.totals w));
  }
