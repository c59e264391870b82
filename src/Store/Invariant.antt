-- ===== src/Store/Invariant.antt =====
-- When a store of src/store/store.cpp is well formed, what its table binds, and how the steps that
-- all operations are made of (a stamp, a removal, a stored value) change that.
use redis_cpp.Base.{
  ℕ, ◌+◌, ◌-◌, ◌%◌, ◌≡◌, refl, ◌∙◌, Option, none, some, arith, if◌then◌else◌, Bytes, str_eq,
  str_eq_refl, inl, inr, Bool-cases,
}
use redis_cpp.HashTable
use redis_cpp.HashTable.Nodes.{total, weight}
use redis_cpp.HashTable.Invariant
use redis_cpp.HashTable.Invariant.{Binds, get-empty, total-empty, empty-IsValid}
use redis_cpp.HashTable.Methods.{put_at-Binds, set_key-Binds, delete-Binds}
use redis_cpp.Value.{Value}
use redis_cpp.Store.{
  Store, new_store, payload_bytes, entry_bytes, size_mod, add_size, sub_size, estimate_entry_bytes,
  touch, drop_entry, flush_all,
}
use redis_cpp.Store.Writes.{bytes_before, store_value}

-- The counter of bytes is the sum of the estimates, up to the word size, and every hash value is a
-- well-formed table.
pub record IsValid (s : Store) : Type 0 where
  pub table : Invariant.IsValid s.table
  pub accounted : s.used_memory_bytes ≡ total entry_bytes (HashTable.entries s.table) % size_mod
  pub hashes :
      (k : Bytes) (v : Value) → HashTable.get k s.table ≡ some v → Invariant.IsValid v.hash_value

-- A value without its stamp, which no reply shows.
abbrev pub strip : Value → Value
strip v = record v { last_accessed_seq = 0 }

abbrev pub strip_entry : Option Value → Option Value
strip_entry none = none
strip_entry (some v) = some (strip v)

unfoldable pub peek : Bytes → Store → Option Value
peek k s = strip_entry (HashTable.get k s.table)

abbrev pub HashOk : Option Value → Type 0
HashOk none = Unit
HashOk (some v) = Invariant.IsValid v.hash_value

-- `s'` is `s` with `o` bound to the key `k`, stamps apart.
pub record Updates (s : Store) (k : Bytes) (o : Option Value) (s' : Store) : Type 0 where
  pub valid : IsValid s'
  pub peeks : (q : Bytes) → peek q s' ≡ (if str_eq k q then o else peek q s)
  pub budget : s'.max_memory_bytes ≡ s.max_memory_bytes

pub Updates-trans :
    {s₀ s₁ s₂ : Store} {k : Bytes} {o o' : Option Value}
    → Updates s₀ k o s₁
    → Updates s₁ k o' s₂
    → Updates s₀ k o' s₂
Updates-trans {k = k} a b = record {
  valid = b.valid;
  peeks = λ q. ground (arith, a.peeks q, b.peeks q);
  budget = b.budget ∙ a.budget;
}

-- A store whose table binds one key anew, and whose counter follows.
pub Binds-Updates :
    (s s' : Store) (k : Bytes) (o : Option Value)
    → IsValid s
    → Binds s.table k o s'.table
    → s'.used_memory_bytes
      ≡ (s.used_memory_bytes
          + size_mod
          - weight entry_bytes k (HashTable.get k s.table) % size_mod
          + weight entry_bytes k o)
        % size_mod
    → s'.max_memory_bytes ≡ s.max_memory_bytes
    → HashOk o
    → Updates s k (strip_entry o) s'
unfolding peek
Binds-Updates s s' k o v b used budget ok = record {
  valid = record {
    table = b.valid;
    accounted = omega (arith, b.totals entry_bytes, v.accounted);
    hashes = λ q u e. elim (Bool-cases (str_eq k q)) [
      | inl same ↦ let bound : o ≡ some u = ground (arith, b.reads q) in rw bound at ok
      | inr other ↦ v.hashes q u (ground (arith, b.reads q))
    ];
  };
  peeks = λ q. ground (arith, b.reads q);
  budget = budget;
}

payload_bytes-stamp :
    (v : Value) (n : ℕ) → payload_bytes (record v { last_accessed_seq = n }) ≡ payload_bytes v
unfolding payload_bytes
payload_bytes-stamp v n = refl

-- A stamp changes nothing but the recency.
pub touch-Updates :
    (k : Bytes) (v : Value) (s : Store)
    → IsValid s
    → HashTable.get k s.table ≡ some v
    → Updates s k (some (strip v)) (touch k v s)
unfolding touch
touch-Updates k v s valid found =
    let stamped : Value = record v { last_accessed_seq = s.access_clock } in
    Binds-Updates s (touch k v s) k (some stamped) valid
      (put_at-Binds k stamped v s.table valid.table found)
      (rw found (omega (arith, valid.accounted, payload_bytes-stamp v s.access_clock))) refl
      (valid.hashes k v found)

pub drop_entry-Updates :
    (k : Bytes) (v : Value) (s : Store)
    → IsValid s
    → HashTable.get k s.table ≡ some v
    → Updates s k none (drop_entry k v s)
unfolding drop_entry estimate_entry_bytes
drop_entry-Updates k v s valid found =
    Binds-Updates s (drop_entry k v s) k none valid (delete-Binds k s.table valid.table).1
      (rw found (omega arith)) refl tt

bytes_before-weight :
    (k : Bytes) (o : Option Value) → bytes_before k o ≡ weight entry_bytes k o % size_mod
unfolding estimate_entry_bytes
bytes_before-weight k none = refl
bytes_before-weight k (some v) = refl

pub store_value-Updates :
    (k : Bytes) (v : Value) (s : Store)
    → IsValid s
    → Invariant.IsValid v.hash_value
    → Updates s k (some (strip v)) (store_value k v s)
unfolding store_value estimate_entry_bytes
store_value-Updates k v s valid ok =
    let old = HashTable.get k s.table in
    let b = (set_key-Binds k v s.table valid.table).1 in
    let s₁ : Store = record s {
      table = (HashTable.set_key k v s.table).1;
      used_memory_bytes =
          add_size (sub_size s.used_memory_bytes (bytes_before k old)) (estimate_entry_bytes k v);
    } in
    let first : Updates s k (some (strip v)) s₁ =
      Binds-Updates s s₁ k (some v) valid b (omega (arith, bytes_before-weight k old)) refl ok in
    Updates-trans first (touch-Updates k v s₁ first.valid (b.reads k ∙ rw (str_eq_refl k)))

pub new_store-IsValid : (stream : ℕ → ℕ → ℕ) → IsValid (new_store stream)
new_store-IsValid stream = record {
  table = empty-IsValid;
  accounted = rw (total-empty entry_bytes) (omega arith);
  hashes = λ k v e. absurd (cc (get-empty {V = Value} k));
}

pub flush_all-IsValid : (s : Store) → IsValid (flush_all s)
unfolding flush_all HashTable.clear
flush_all-IsValid s = record {
  table = empty-IsValid;
  accounted = rw (total-empty entry_bytes) (omega arith);
  hashes = λ k v e. absurd (cc (get-empty {V = Value} k));
}
