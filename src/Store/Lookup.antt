-- ===== src/Store/Lookup.antt =====
-- Every typed read of src/store/store.cpp answers from the view, and changes nothing that shows.
use redis_cpp.Base.{
  ℕ, ◌≡◌, refl, sym, inl, inr, true, false, Option, none, some, if◌then◌else◌, Bytes, Bool-cases,
  Option-cases,
}
use redis_cpp.Base.Int.{ℤ, negsuc}
use redis_cpp.HashTable
use redis_cpp.Value.{ValueType, Value, type_eq}
use redis_cpp.Store.{Result, wrong_type_result, Store, is_expired, sweep_expired}
use redis_cpp.Store.Reads.{read_entry, ttl, ttl_seconds}
use redis_cpp.Store.Invariant.{IsValid, strip}
use redis_cpp.Store.View.{
  view, is_expired-strip, SameView, SameView-refl, peek-found, touch-SameView,
  delete_if_expired-SameView, delete_all_expired-SameView,
}

-- The reply that the entry in view calls for.
abbrev pub reply_of {ℓ} :
    {A : Type ℓ} → ValueType → Result A → (Value → Result A) → Option Value → Result A
reply_of ty absent answer none = absent
reply_of ty absent answer (some v) = if type_eq v.type ty then answer v else wrong_type_result

pub view-absent :
    (now : ℕ) (k : Bytes) (s : Store) → HashTable.get k s.table ≡ none → view now k s ≡ none
unfolding view
view-absent now k s e = rw (peek-found k s none e) refl

pub view-gone :
    (now : ℕ) (k : Bytes) (v : Value) (s : Store)
    → HashTable.get k s.table ≡ some v
    → is_expired now v ≡ true
    → view now k s ≡ none
unfolding view
view-gone now k v s e gone = rw (peek-found k s (some v) e, is_expired-strip now v, gone) refl

pub view-alive :
    (now : ℕ) (k : Bytes) (v : Value) (s : Store)
    → HashTable.get k s.table ≡ some v
    → is_expired now v ≡ false
    → view now k s ≡ some (strip v)
unfolding view
view-alive now k v s e alive = rw (peek-found k s (some v) e, is_expired-strip now v, alive) refl

-- A read replies from the view, and shows the same afterwards.
pub record Reads {ℓ} {A : Type ℓ} (now : ℕ) (s : Store) (reply : A) (r : A × Store) : Type ℓ where
  pub replies : r.0 ≡ reply
  pub same : SameView now s r.1

module _ {ℓ} {A : Type ℓ} (ty : ValueType) (absent : Result A) (answer : Value → Result A) where
  pub read_entry-Reads :
      ((v : Value) → answer (strip v) ≡ answer v)
      → (now : ℕ) (k : Bytes) (s : Store) → IsValid s
      → Reads now s (reply_of ty absent answer (view now k s)) (read_entry ty absent answer now k s)
  unfolding read_entry
  read_entry-Reads stampless now k s valid = elim (Option-cases (HashTable.get k s.table)) [
    | inl e ↦
        rw (view-absent now k s e, e, read_entry)
          (record { replies = refl; same = SameView-refl now s valid })
    | inr (v, e) ↦ elim (Bool-cases (is_expired now v)) [
      | inl gone ↦
          rw (view-gone now k v s e gone, e, read_entry, gone)
            (record { replies = refl; same = delete_if_expired-SameView now k s valid })
      | inr alive ↦ elim (Bool-cases (type_eq v.type ty)) [
        | inl right ↦
            rw (view-alive now k v s e alive, e, read_entry, alive, right)
              (record { replies = sym (stampless v); same = touch-SameView now k v s valid e })
        | inr wrong ↦
            rw (view-alive now k v s e alive, e, read_entry, alive, wrong)
              (record { replies = refl; same = SameView-refl now s valid })
      ]
    ]
  ]

-- The reply of TTL to the entry in view.
abbrev pub ttl_of : ℕ → Option Value → ℤ
ttl_of now none = negsuc 1
ttl_of now (some v) = ttl_seconds now v.expires_at

-- TTL on a well-formed store replies -2 for a key that is not in view, -1 for one in view with no
-- deadline, and otherwise its rounded seconds, and changes nothing that shows from its instant
-- on.
pub ttl-Reads :
    (now : ℕ) (k : Bytes) (s : Store)
    → IsValid s
    → Reads now s (ttl_of now (view now k s)) (ttl now k s)
unfolding ttl
ttl-Reads now k s valid = elim (Option-cases (HashTable.get k s.table)) [
  | inl e ↦
      rw (view-absent now k s e, e, ttl)
        (record { replies = refl; same = SameView-refl now s valid })
  | inr (v, e) ↦ elim (Bool-cases (is_expired now v)) [
    | inl gone ↦
        rw (view-gone now k v s e gone, e, ttl, gone)
          (record { replies = refl; same = delete_if_expired-SameView now k s valid })
    | inr alive ↦
        rw (view-alive now k v s e alive, e, ttl, alive)
          (record { replies = refl; same = SameView-refl now s valid })
  ]
]

-- A background sweep of a well-formed store leaves a well-formed store with the same budget that
-- shows the same at every instant from the sweep on.
pub sweep_expired-SameView :
    (now : ℕ) (s : Store) → IsValid s → SameView now s (sweep_expired now s)
unfolding sweep_expired
sweep_expired-SameView now s valid = delete_all_expired-SameView now _ s valid
