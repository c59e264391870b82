-- ===== src/Store/Snapshot/Loading.antt =====
-- `LoadSnapshot` of src/store/store.cpp on any entries, key by key.
use redis_cpp.Base.{
  ℕ, ◌%◌, ◌≡◌, refl, ◌∙◌, ◌⊎◌, inl, inr, Option, none, some, List, [], ◌∷◌, arith, if◌then◌else◌,
  Bytes, str_eq, str_eq_iff, str_eq_refl, Bool-cases, Option-cases,
}
use redis_cpp.HashTable
use redis_cpp.HashTable.{HashTable}
use redis_cpp.HashTable.Invariant
use redis_cpp.HashTable.Invariant.{is_some, empty-IsValid, get-empty}
use redis_cpp.HashTable.Methods.{set_key-Binds}
use redis_cpp.Value.{hash, Value, type_eq}
use redis_cpp.Store.{Store, add_size, estimate_entry_bytes, entry_bytes, size_mod, flush_all}
use redis_cpp.Store.Invariant.{
  IsValid, strip, peek, Updates, Updates-trans, Binds-Updates, touch-Updates, flush_all-IsValid,
}
use redis_cpp.Store.Evict.{evict_unlimited}
use redis_cpp.Store.Hashes.{set_fields-Assigns}
use redis_cpp.Store.Snapshot.{
  SnapshotEntry, is_past, restored, store_restored, load_entry, load_entries, load_snapshot,
}

restored-hash :
    (now wall : ℕ) (e : SnapshotEntry) → Invariant.IsValid (restored now wall e).hash_value
unfolding restored
restored-hash now wall e = elim (Bool-cases (type_eq e.type hash)) [
  | inl is_hash ↦ rw is_hash (set_fields-Assigns e.hash_value HashTable.empty empty-IsValid).valid
  | inr other ↦ rw other empty-IsValid
]

store_restored-Updates :
    (k : Bytes) (v : Value) (s : Store)
    → IsValid s
    → HashTable.get k s.table ≡ none
    → Invariant.IsValid v.hash_value
    → Updates s k (some (strip v)) (store_restored k v s)
unfolding store_restored estimate_entry_bytes
store_restored-Updates k v s valid absent ok =
    let b = (set_key-Binds k v s.table valid.table).1 in
    let s₁ : Store = record s {
      table = (HashTable.set_key k v s.table).1;
      used_memory_bytes = add_size s.used_memory_bytes (entry_bytes k v % size_mod);
    } in
    let first : Updates s k (some (strip v)) s₁ =
      Binds-Updates s s₁ k (some v) valid b (rw absent (omega arith)) refl ok in
    Updates-trans first (touch-Updates k v s₁ first.valid (b.reads k ∙ rw (str_eq_refl k)))

-- The first entry of a snapshot with a key, and what LoadSnapshot makes of it.
unfoldable pub find_entry : Bytes → List SnapshotEntry → Option SnapshotEntry
find_entry q [] = none
find_entry q (e ∷ es) = if str_eq e.key q then some e else find_entry q es

abbrev pub reload : ℕ → ℕ → Option SnapshotEntry → Option Value
reload now wall none = none
reload now wall (some e) =
    if is_past wall e.expires_at_wall then none else some (strip (restored now wall e))

-- No key twice.
unfoldable pub Distinct : List SnapshotEntry → Type 0
Distinct [] = Unit
Distinct (e ∷ es) = (find_entry e.key es ≡ none) × Distinct es

peek-none : (q : Bytes) (s : Store) → peek q s ≡ none → HashTable.get q s.table ≡ none
unfolding peek
peek-none q s h = elim (Option-cases (HashTable.get q s.table)) [
  | inl e ↦ e
  | inr (v, e) ↦ absurd (cc (rw e at h))
]

record Loads (now wall : ℕ) (es : List SnapshotEntry) (s s' : Store) : Type 0 where
  valid : IsValid s'
  peeks : (q : Bytes) → (peek q s ≡ none) → peek q s' ≡ reload now wall (find_entry q es)
  kept : (q : Bytes) → find_entry q es ≡ none → peek q s' ≡ peek q s
  budget : s'.max_memory_bytes ≡ s.max_memory_bytes

load_entry-Loads :
    (now wall : ℕ) (e : SnapshotEntry) (s : Store)
    → IsValid s
    → peek e.key s ≡ none
    → Loads now wall (e ∷ []) s (load_entry now wall e s)
unfolding load_entry find_entry
load_entry-Loads now wall e s valid absent = elim (Bool-cases (is_past wall e.expires_at_wall)) [
  | inl past ↦ rw past (record {
    valid = valid;
    peeks = λ q h. ground (arith, past, h);
    kept = λ q h. refl;
    budget = refl;
  })
  | inr ahead ↦
      let u =
        store_restored-Updates e.key (restored now wall e) s valid (peek-none e.key s absent)
          (restored-hash now wall e) in
      rw ahead (record {
        valid = u.valid;
        peeks = λ q h. ground (arith, ahead, h, u.peeks q);
        kept = λ q h. ground (arith, h, u.peeks q);
        budget = u.budget;
      })
]

load_entries-Loads :
    (now wall : ℕ) (es : List SnapshotEntry) (s : Store)
    → IsValid s
    → Distinct es
    → ((q : Bytes) → (find_entry q es ≡ none) ⊎ (peek q s ≡ none))
    → Loads now wall es s (load_entries now wall es s)
unfolding load_entries find_entry Distinct
load_entries-Loads now wall [] s valid distinct fresh = record {
  valid = valid;
  peeks = λ q h. h;
  kept = λ q h. refl;
  budget = refl;
}
load_entries-Loads now wall (e ∷ es) s valid distinct fresh =
    let absent : peek e.key s ≡ none = ground (arith, fresh e.key, str_eq_refl e.key) in
    let first = load_entry-Loads now wall e s valid absent in
    let rest =
      load_entries-Loads now wall es (load_entry now wall e s) first.valid distinct.1
        (λ q. ground (arith, fresh q, first.kept q, distinct.0, str_eq_iff e.key q)) in
    record {
      valid = rest.valid;
      peeks = λ q h. elim (Bool-cases (str_eq e.key q)) [
        | inl same ↦
            let later : find_entry q es ≡ none = rw (← (str_eq_iff e.key q).0 same) distinct.0 in
            rest.kept q later ∙ first.peeks q h ∙ rw same refl
        | inr different ↦ rest.peeks q (first.kept q (rw different refl) ∙ h) ∙ rw different refl
      ];
      kept = λ q h. elim (Bool-cases (str_eq e.key q)) [
        | inl same ↦ absurd (ground (arith, h, same))
        | inr different ↦ rest.kept q (rw different at h) ∙ first.kept q (rw different refl)
      ];
      budget = rest.budget ∙ first.budget;
    }

peek-flush_all : (q : Bytes) (s : Store) → peek q (flush_all s) ≡ none
unfolding peek flush_all HashTable.clear
peek-flush_all q s = rw (get-empty {V = Value} q) refl

-- Loading entries of different keys, with no memory budget.
pub load_snapshot-Distinct :
    (now wall : ℕ) (es : List SnapshotEntry) (s : Store) (q : Bytes)
    → Distinct es
    → s.max_memory_bytes ≡ 0
    → IsValid (load_snapshot now wall es s)
      × (peek q (load_snapshot now wall es s) ≡ reload now wall (find_entry q es))
unfolding load_snapshot
load_snapshot-Distinct now wall es s q distinct unlimited =
    let l =
      load_entries-Loads now wall es (flush_all s) (flush_all-IsValid s) distinct
        (λ k. inr (peek-flush_all k s)) in
    let free : (flush_all s).max_memory_bytes ≡ 0 = unfold flush_all in unlimited in
    rw (evict_unlimited (load_entries now wall es (flush_all s)) (l.budget ∙ free))
      (l.valid, l.peeks q (peek-flush_all q s))
