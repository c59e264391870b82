-- ===== src/Store/Evict.antt =====
-- `EvictIfOverBudget` of src/store/store.cpp: what it may remove, and when it stops.
use redis_cpp.Base.{
  ℕ, zero, suc, ◌+◌, ◌≤◌, ◌≡◌, refl, ◌∙◌, ◌⊎◌, inl, inr, ◌&&◌, Option, none, some, [], ◌∷◌, arith,
  ltb, ◌==◌, Bool-cases, Bytes, All,
}
use redis_cpp.HashTable
use redis_cpp.HashTable.Nodes.{Chain}
use redis_cpp.HashTable.Invariant.{one}
use redis_cpp.HashTable.Methods.{delete-Binds}
use redis_cpp.HashTable.Sample.{IsEntry, sample_keys-lem}
use redis_cpp.Value.{Value}
use redis_cpp.Store.{
  Store, sample_size, drop_entry, older, oldest, evict_sampled, evict_loop, evict_if_over_budget,
}
use redis_cpp.Store.Invariant.{IsValid, peek, Updates, drop_entry-Updates}

older-lem :
    (P : Bytes × Value → Type 0) (e victim : Bytes × Value)
    → P victim
    → P e
    → P (older e victim)
      × ((older e victim).1.last_accessed_seq ≤ victim.1.last_accessed_seq)
      × ((older e victim).1.last_accessed_seq ≤ e.1.last_accessed_seq)
unfolding older
older-lem P e victim p q =
    elim (Bool-cases (ltb e.1.last_accessed_seq victim.1.last_accessed_seq)) [
      | inl first ↦ rw first (q, ground arith, omega arith)
      | inr later ↦ rw later (p, omega arith, ground arith)
    ]

-- The victim of a sample has any property that all entries of the sample have, and no entry of
-- the sample has a smaller stamp.
pub oldest-lem :
    (P : Bytes × Value → Type 0) (victim : Bytes × Value) (rest : Chain Value)
    → P victim
    → All P rest
    → P (oldest victim rest)
      × ((oldest victim rest).1.last_accessed_seq ≤ victim.1.last_accessed_seq)
      × All (λ e. (oldest victim rest).1.last_accessed_seq ≤ e.1.last_accessed_seq) rest
unfolding oldest
oldest-lem P victim [] p all = (p, omega arith, tt)
oldest-lem P victim (e ∷ rest) p all =
    let w = older-lem P e victim p all.0 in
    let r = oldest-lem P (older e victim) rest w.0 all.1 in
    (r.0, omega (arith, r.1, w.1), (omega (arith, r.1, w.2), r.2))

-- Nothing is changed but that entries are gone.
pub record Evicts (s s' : Store) : Type 0 where
  pub valid : IsValid s'
  pub survivors : (q : Bytes) → (peek q s' ≡ none) ⊎ (peek q s' ≡ peek q s)
  pub budget : s'.max_memory_bytes ≡ s.max_memory_bytes
  pub fewer : HashTable.len s'.table ≤ HashTable.len s.table

-- The loop has ended by its own test, or by the `break` on an empty sample.
abbrev pub HasStopped : Store → Type 0
HasStopped s =
    (s.used_memory_bytes ≤ s.max_memory_bytes)
    ⊎ (HashTable.len s.table ≡ 0)
    ⊎ ((pos : ℕ) × ((HashTable.sample_keys s.stream sample_size pos s.table).0 ≡ []))

pub Evicts-refl : (s : Store) → IsValid s → Evicts s s
Evicts-refl s v = record {
  valid = v;
  survivors = λ q. inr refl;
  budget = refl;
  fewer = omega arith;
}

Evicts-drop :
    {s s₁ s₂ : Store} {k : Bytes}
    → Updates s k none s₁
    → HashTable.len s₁.table ≤ HashTable.len s.table
    → Evicts s₁ s₂
    → Evicts s s₂
Evicts-drop {k = k} u less e = record {
  valid = e.valid;
  survivors = λ q. ground (arith, e.survivors q, u.peeks q);
  budget = e.budget ∙ u.budget;
  fewer = omega (arith, less, e.fewer);
}

-- A removal makes the table one entry smaller.
pub len-drop_entry :
    (k : Bytes) (v : Value) (s : Store)
    → IsValid s
    → HashTable.get k s.table ≡ some v
    → HashTable.len (drop_entry k v s).table + 1 ≡ HashTable.len s.table
unfolding drop_entry
len-drop_entry k v s valid found =
    let b = (delete-Binds k s.table valid.table).1 in
    omega (arith, rw found at (b.totals one), b.valid.counted, valid.table.counted)

drawn-IsValid : (s : Store) (n : ℕ) → IsValid s → IsValid (record s { drawn = n })
drawn-IsValid s n v = record { table = v.table; accounted = v.accounted; hashes = v.hashes }

drawn-Evicts : (s : Store) (n : ℕ) → IsValid s → Evicts s (record s { drawn = n })
unfolding peek
drawn-Evicts s n v = record {
  valid = drawn-IsValid s n v;
  survivors = λ q. inr refl;
  budget = refl;
  fewer = omega arith;
}

drawn-Updates :
    {s s' : Store} {n : ℕ} {k : Bytes} {o : Option Value}
    → Updates (record s { drawn = n }) k o s'
    → Updates s k o s'
unfolding peek
drawn-Updates u = record { valid = u.valid; peeks = u.peeks; budget = u.budget }

-- One round, from the claim for the smaller store.
evict_sampled-lem :
    (continue : Store → Store) (s : Store) (n : ℕ) (sample : Chain Value)
    → IsValid s
    → All (IsEntry s.table) sample
    → ((s' : Store)
        → IsValid s'
        → HashTable.len s'.table + 1 ≡ HashTable.len s.table
        → Evicts s' (continue s') × HasStopped (continue s'))
    → (sample ≡ [] → HasStopped (record s { drawn = n }))
    → Evicts s (evict_sampled continue sample (record s { drawn = n }))
      × HasStopped (evict_sampled continue sample (record s { drawn = n }))
unfolding evict_sampled
evict_sampled-lem continue s n [] valid all ih empty = (drawn-Evicts s n valid, empty refl)
evict_sampled-lem continue s n (first ∷ rest) valid all ih empty =
    let victim = oldest first rest in
    let s₁ : Store = record s { drawn = n } in
    let found = (oldest-lem (IsEntry s.table) first rest all.0 all.1).0 in
    let u = drop_entry-Updates victim.0 victim.1 s₁ (drawn-IsValid s n valid) found in
    let less = len-drop_entry victim.0 victim.1 s₁ (drawn-IsValid s n valid) found in
    let (e, stopped) = ih (drop_entry victim.0 victim.1 s₁) u.valid less in
    (Evicts-drop (drawn-Updates u) (omega (arith, less)) e, stopped)

pub evict_loop-lem :
    (fuel : ℕ) (s : Store)
    → IsValid s
    → HashTable.len s.table ≤ fuel
    → Evicts s (evict_loop fuel s) × HasStopped (evict_loop fuel s)
unfolding evict_loop
evict_loop-lem zero s valid enough = (Evicts-refl s valid, inr (inl (omega arith)))
evict_loop-lem (suc fuel) s valid enough =
    elim (Bool-cases
      (ltb s.max_memory_bytes s.used_memory_bytes && ltb 0 (HashTable.len s.table))) [
        | inr stop ↦ rw stop (Evicts-refl s valid, ground arith)
        | inl run ↦ rw run (
            evict_sampled-lem (evict_loop fuel) s _ _ valid
              (sample_keys-lem s.stream s.table valid.table sample_size s.drawn).0
              (λ s' v less. evict_loop-lem fuel s' v (omega (arith, less)))
              (λ e. inr (inr (s.drawn, e))))
      ]

-- On a well-formed store, eviction leaves a well-formed store in which every key has the value it
-- had, stamp apart, or is gone, with the budget as it was and no more entries; and it ends with
-- no budget set, at or under the budget, with no entry left, or at an empty sample.
pub evict-lem :
    (s : Store)
    → IsValid s
    → Evicts s (evict_if_over_budget s)
      × ((s.max_memory_bytes ≡ 0) ⊎ HasStopped (evict_if_over_budget s))
unfolding evict_if_over_budget
evict-lem s valid = elim (Bool-cases (s.max_memory_bytes == 0)) [
  | inl unlimited ↦ rw unlimited (Evicts-refl s valid, inl (ground arith))
  | inr limited ↦
      let r = evict_loop-lem (HashTable.len s.table) s valid (omega arith) in
      rw limited (r.0, inr r.1)
]

-- With no budget set nothing is evicted.
pub evict_unlimited : (s : Store) → s.max_memory_bytes ≡ 0 → evict_if_over_budget s ≡ s
unfolding evict_if_over_budget
evict_unlimited s h = rw h refl
