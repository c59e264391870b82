-- ===== src/Store/Lists.antt =====
-- LPUSH, RPUSH, LLEN and LRANGE of src/store/store.cpp as a client sees them.
use mathlib.Core.List.{reverse, reverse-append}
use redis_cpp.Base.{
  ℕ, ◌≡◌, refl, sym, ◌∙◌, true, false, Option, none, some, List, [], ◌∷◌, ◌++◌, arith, length,
  Bytes, str_eq_refl,
}
use mathlib.Core.List.{append_assoc}
use redis_cpp.Base.Int.{ℤ, to_int32}
use redis_cpp.Value.{ValueType, list, Value, type_eq}
use redis_cpp.Store.{Result, success, Store, is_expired}
use redis_cpp.Store.Reads.{lrange, slice}
use redis_cpp.Store.Writes.{push_front, set_list, lpush, rpush}
use redis_cpp.Store.Invariant.{IsValid, strip, peek}
use redis_cpp.Store.View.{Writes-view, live, view, Writes}
use redis_cpp.Store.Lookup.{read_entry-Reads}
use redis_cpp.Store.Modify.{base, Fits, IsChange, modify_entry-Writes}

pub push_front-reverse :
    (values elems : List Bytes) → push_front values elems ≡ reverse values ++ elems
unfolding push_front
push_front-reverse [] elems = refl
push_front-reverse (x ∷ values) elems =
    push_front-reverse values (x ∷ elems)
    ∙ rw (reverse-append (x ∷ []) values) (sym (append_assoc (reverse values) (x ∷ []) elems))

-- The elements of the list in view.
abbrev pub elements : Option Value → List Bytes
elements none = []
elements (some v) = v.list_value

-- The value of a key once its list is `elems`: the deadline stays.
abbrev pub with_elements : List Bytes → Option Value → Value
with_elements elems o = record (base list o) { list_value = elems }

pub lpush-IsChange :
    (values : List Bytes) → IsChange (λ v. set_list (push_front values v.list_value) v)
lpush-IsChange values = record { reply = λ v. refl; result = λ v. refl; hashes = λ v h. h }

pub rpush-IsChange : (values : List Bytes) → IsChange (λ v. set_list (v.list_value ++ values) v)
rpush-IsChange values = record { reply = λ v. refl; result = λ v. refl; hashes = λ v h. h }

-- A push replies the new length and writes the new list.
pub record Pushes (now : ℕ) (k : Bytes) (elems : List Bytes) (s : Store) (r : Result ℤ × Store)
    : Type 0 where
  pub reply : r.0 ≡ success (to_int32 (length elems))
  pub write : Writes s k (some (strip (with_elements elems (view now k s)))) r.1

-- With no value of another type in view, LPUSH on a well-formed store replies the new length, as
-- a 32-bit integer, and writes the list with the values in reverse order before the old elements:
-- with no memory budget that write is all that shows, and with one eviction may remove entries
-- besides.
pub lpush-Pushes :
    (values : List Bytes) (now : ℕ) (k : Bytes) (s : Store)
    → IsValid s
    → Fits list (view now k s)
    → Pushes now k
        (reverse values ++ (base list (view now k s)).list_value)
        s
        (lpush values now k s)
unfolding lpush
lpush-Pushes values now k s valid fits =
    let r = modify_entry-Writes list _ (lpush-IsChange values) now k s valid fits in
    rw (← push_front-reverse values (base list (view now k s)).list_value)
      (record { reply = r.0; write = r.1 })

-- With no value of another type in view, RPUSH on a well-formed store replies the new length, as
-- a 32-bit integer, and writes the list with the values behind the old elements: with no memory
-- budget that write is all that shows, and with one eviction may remove entries besides.
pub rpush-Pushes :
    (values : List Bytes) (now : ℕ) (k : Bytes) (s : Store)
    → IsValid s
    → Fits list (view now k s)
    → Pushes now k ((base list (view now k s)).list_value ++ values) s (rpush values now k s)
unfolding rpush
rpush-Pushes values now k s valid fits =
    let r = modify_entry-Writes list _ (rpush-IsChange values) now k s valid fits in
    record { reply = r.0; write = r.1 }

-- What is in view has not expired.
pub view-not_expired :
    (now : ℕ) (k : Bytes) (s : Store) (v : Value) → view now k s ≡ some v → is_expired now v ≡ false
unfolding view
view-not_expired now k s v h = go (peek k s) h
  where
    go : (o : Option Value) → live now o ≡ some v → is_expired now v ≡ false
    go none e = absurd (cc e)
    go (some u) e = ground arith

-- The deadline and the type of the base are those in view.
pub base-live :
    (ty : ValueType) (now : ℕ) (o : Option Value) (v : Value)
    → ((u : Value) → o ≡ some u → is_expired now u ≡ false)
    → v.expires_at ≡ (base ty o).expires_at
    → live now (some v) ≡ some v
unfolding is_expired
base-live ty now none v alive e = rw e refl
base-live ty now (some u) v alive e = rw (e, alive u refl) refl

pub base-type : (ty : ValueType) (o : Option Value) → Fits ty o → type_eq (base ty o).type ty ≡ true
base-type ty none fits = ground arith
base-type ty (some v) fits = fits

-- With no memory budget and no value of another type in view, LRANGE after a push that wrote the
-- elements `elems` replies the slice of these.
pub lrange-Pushes :
    (start stop : ℤ) (now : ℕ) (k : Bytes) (elems : List Bytes) (s : Store) (r : Result ℤ × Store)
    → s.max_memory_bytes ≡ 0
    → Fits list (view now k s)
    → Pushes now k elems s r
    → (lrange start stop now k r.1).0 ≡ success (slice start stop elems)
unfolding lrange
lrange-Pushes start stop now k elems s r unlimited fits p =
    let o = view now k s in
    let w = strip (with_elements elems o) in
    let here : view now k r.1 ≡ some w =
      rw (Writes-view p.write unlimited now k, str_eq_refl k)
        (base-live list now o w (view-not_expired now k s) refl) in
    let read =
      read_entry-Reads list (success []) (λ v. success (slice start stop v.list_value)) (λ v. refl)
        now k r.1 p.write.valid in
    rw (read.replies, here, base-type list o fits) refl
