-- ===== src/Store/Modify.antt =====
-- `GetOrCreateList`, `GetOrCreateHash` and the operations of src/store/store.cpp that change a value
-- through the pointer that these return: one write of the changed value, or WRONGTYPE and no change.
use redis_cpp.Base.{
  ℕ, ◌%◌, ◌≡◌, refl, ◌∙◌, ◌⊎◌, inl, inr, true, false, Option, none, some, arith, Bytes, str_eq_iff,
  str_eq_refl, Bool-cases, Option-cases,
}
use redis_cpp.HashTable
use redis_cpp.HashTable.Invariant
use redis_cpp.HashTable.Invariant.{empty-IsValid}
use redis_cpp.HashTable.Methods.{put_at-Binds, set_key-Binds, delete-Binds}
use redis_cpp.Value.{ValueType, Value, type_eq, fresh_value}
use redis_cpp.Store.{
  success, wrong_type_result, Store, entry_bytes, size_mod, add_size, sub_size,
  estimate_entry_bytes, is_expired, touch, drop_entry,
}
use redis_cpp.Store.Writes.{create_entry, get_or_create, change_entry, modify_entry}
use redis_cpp.Store.Invariant.{
  IsValid, strip, Updates, Updates-trans, Binds-Updates, touch-Updates, drop_entry-Updates,
}
use redis_cpp.Store.View.{view, peek-found, Writes, evict-Writes}
use redis_cpp.Store.Lookup.{view-absent, view-gone, view-alive}

-- The value to change: the one in view, or an empty one of the type.
abbrev pub base : ValueType → Option Value → Value
base ty none = fresh_value ty
base ty (some v) = v

-- No value of another type is in view.
abbrev pub Fits : ValueType → Option Value → Type 0
Fits ty none = Unit
Fits ty (some v) = type_eq v.type ty ≡ true

type_eq_refl : (ty : ValueType) → type_eq ty ty ≡ true
type_eq_refl ty = ground arith

-- An entry `v` stands ready at `k`, stamps apart the base of what was in view.
record Ready (ty : ValueType) (k : Bytes) (s : Store) (o : Option Value) (r : Option Value × Store)
    : Type 0 where
  entry : Value
  returned : r.0 ≡ some entry
  found : HashTable.get k r.1.table ≡ some entry
  based : strip entry ≡ base ty o
  fits : Fits ty o
  update : Updates s k (some (strip entry)) r.1

create_entry-Ready :
    (ty : ValueType) (k : Bytes) (s : Store)
    → IsValid s
    → HashTable.get k s.table ≡ none
    → Ready ty k s none (create_entry ty k s)
unfolding create_entry touch estimate_entry_bytes
create_entry-Ready ty k s valid absent =
    let v = fresh_value ty in
    let b = (set_key-Binds k v s.table valid.table).1 in
    let s₁ : Store = record s {
      table = (HashTable.set_key k v s.table).1;
      used_memory_bytes = add_size s.used_memory_bytes (entry_bytes k v % size_mod);
    } in
    let first : Updates s k (some (strip v)) s₁ =
      Binds-Updates s s₁ k (some v) valid b (rw absent (omega arith)) refl empty-IsValid in
    let here : HashTable.get k s₁.table ≡ some v = b.reads k ∙ rw (str_eq_refl k) in
    let stamped : Value = record v { last_accessed_seq = s.access_clock } in
    let now_there =
      (put_at-Binds k stamped v s₁.table first.valid.table here).reads k ∙ rw (str_eq_refl k) in
    record {
      entry = stamped;
      returned = now_there;
      found = now_there;
      based = refl;
      fits = tt;
      update = Updates-trans first (touch-Updates k v s₁ first.valid here);
    }

Updates-self :
    (k : Bytes) (v : Value) (s : Store)
    → IsValid s
    → HashTable.get k s.table ≡ some v
    → Updates s k (some (strip v)) s
Updates-self k v s valid found = record {
  valid = valid;
  peeks = λ q. ground (arith, peek-found k s (some v) found, str_eq_iff k q);
  budget = refl;
}

get-drop_entry :
    (k : Bytes) (v : Value) (s : Store)
    → IsValid s
    → HashTable.get k (drop_entry k v s).table ≡ none
unfolding drop_entry
get-drop_entry k v s valid = (delete-Binds k s.table valid.table).1.reads k ∙ rw (str_eq_refl k)

-- The entry is made ready, unless a value of another type is in view.
get_or_create-lem :
    (ty : ValueType) (now : ℕ) (k : Bytes) (s : Store)
    → IsValid s
    → Ready ty k s (view now k s) (get_or_create ty now k s)
      ⊎ ((v : Value) × (view now k s ≡ some v)
          × (type_eq v.type ty ≡ false)
          × (get_or_create ty now k s ≡ (none, s)))
unfolding get_or_create
get_or_create-lem ty now k s valid = elim (Option-cases (HashTable.get k s.table)) [
  | inl e ↦ rw (view-absent now k s e, e, get_or_create) (inl (create_entry-Ready ty k s valid e))
  | inr (v, e) ↦ elim (Bool-cases (is_expired now v)) [
    | inl gone ↦
        let dropped = drop_entry-Updates k v s valid e in
        let r =
          create_entry-Ready ty k (drop_entry k v s) dropped.valid (get-drop_entry k v s valid) in
        rw (view-gone now k v s e gone, e, get_or_create, gone)
          (inl (record {
            entry = r.entry;
            returned = r.returned;
            found = r.found;
            based = r.based;
            fits = r.fits;
            update = Updates-trans dropped r.update;
          }))
    | inr alive ↦ elim (Bool-cases (type_eq v.type ty)) [
      | inl right ↦
          rw (view-alive now k v s e alive, e, get_or_create, alive, right)
            (inl (record {
              entry = v;
              returned = refl;
              found = e;
              based = refl;
              fits = right;
              update = Updates-self k v s valid e;
            }))
      | inr wrong ↦
          rw (view-alive now k v s e alive, e, get_or_create, alive, wrong)
            (inr (strip v, refl, wrong, refl))
    ]
  ]
]

-- A change that does not read the stamp and keeps hash values well formed.
pub record IsChange {ℓ} {A : Type ℓ} (change : Value → A × Value) : Type ℓ where
  pub reply : (v : Value) → (change v).0 ≡ (change (strip v)).0
  pub result : (v : Value) → strip (change v).1 ≡ strip (change (strip v)).1
  pub hashes :
      (v : Value) → Invariant.IsValid v.hash_value → Invariant.IsValid (change v).1.hash_value

-- A changed value written through the pointer to its entry, with the accounting and the stamp.
pub write_back-Updates :
    (k : Bytes) (v v' : Value) (s : Store)
    → IsValid s
    → HashTable.get k s.table ≡ some v
    → Invariant.IsValid v'.hash_value
    → Updates s k (some (strip v')) (
        touch k v' (record s {
          table = HashTable.put_at k v' s.table;
          used_memory_bytes =
              add_size
                (sub_size s.used_memory_bytes (estimate_entry_bytes k v))
                (estimate_entry_bytes k v');
        }))
unfolding estimate_entry_bytes
write_back-Updates k v v' s valid found ok =
    let b = put_at-Binds k v' v s.table valid.table found in
    let s' : Store = record s {
      table = HashTable.put_at k v' s.table;
      used_memory_bytes =
          add_size (sub_size s.used_memory_bytes (entry_bytes k v % size_mod))
            (entry_bytes k v' % size_mod);
    } in
    let first : Updates s k (some (strip v')) s' =
      Binds-Updates s s' k (some v') valid b (rw found (omega arith)) refl ok in
    Updates-trans first (touch-Updates k v' s' first.valid (b.reads k ∙ rw (str_eq_refl k)))

module _ {ℓ} {A : Type ℓ} (ty : ValueType) (change : Value → A × Value) where
  modify_ready :
      IsChange change
      → (k : Bytes) (s : Store) (r : Option Value × Store) (v : Value) → r.0 ≡ some v
      → HashTable.get k r.1.table ≡ some v
      → Updates s k (some (strip v)) r.1
      → ((change_entry change k r).0 ≡ success (change v).0)
        × Writes s k (some (strip (change v).1)) (change_entry change k r).1
  unfolding change_entry
  modify_ready c k s r v returned found u =
      rw (returned, change_entry)
        (
          refl,
          evict-Writes _ (
              Updates-trans u (
                write_back-Updates k v (change v).1 r.1 u.valid found
                  (c.hashes v (u.valid.hashes k v found)))),
        )

  -- With no value of another type in view, the base is changed and written, and the reply is that
  -- of the change.
  pub modify_entry-Writes :
      IsChange change
      → (now : ℕ) (k : Bytes) (s : Store) → IsValid s
      → Fits ty (view now k s)
      → ((modify_entry ty change now k s).0 ≡ success (change (base ty (view now k s))).0)
        × Writes s k
            (some (strip (change (base ty (view now k s))).1))
            (modify_entry ty change now k s).1
  unfolding modify_entry change_entry
  modify_entry-Writes c now k s valid fits = elim (get_or_create-lem ty now k s valid) [
    | inr (v, e, wrong, run) ↦ absurd (ground (arith, e, wrong, fits))
    | inl r ↦
        let ready = modify_ready c k s _ r.entry r.returned r.found r.update in
        rw (← r.based, ← c.result r.entry, ← c.reply r.entry) ready
  ]

  -- An operation that changes the value of a key, as a push or HSET does, replies WRONGTYPE if a
  -- well-formed store has a value of another type in view there, and leaves the store exactly as
  -- it was.
  pub modify_entry_wrong :
      (now : ℕ) (k : Bytes) (s : Store) (v : Value)
      → IsValid s
      → view now k s ≡ some v
      → type_eq v.type ty ≡ false
      → modify_entry ty change now k s ≡ (wrong_type_result, s)
  unfolding modify_entry change_entry
  modify_entry_wrong now k s v valid e wrong = elim (get_or_create-lem ty now k s valid) [
    | inr (u, _, _, run) ↦ rw run refl
    | inl r ↦ absurd (ground (arith, e, wrong, r.fits))
  ]
