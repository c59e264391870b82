-- ===== src/Store/Strings.antt =====
-- SET, GET and DEL of src/store/store.cpp as a client sees them.
use redis_cpp.Base.{
  ℕ, ◌+◌, ◌≡◌, refl, sym, ◌∙◌, ap, inl, inr, Bool, true, false, Option, none, some, List, [], ◌∷◌,
  arith, if◌then◌else◌, to_nat, Bytes, str_eq, str_eq_iff, Bool-cases, Option-cases,
}
use redis_cpp.Base.Int.{pos}
use redis_cpp.HashTable
use redis_cpp.HashTable.Invariant.{is_some, empty-IsValid}
use redis_cpp.Value.{string, Value}
use redis_cpp.Store.{Result, missing, success, Store, is_expired, drop_entry}
use redis_cpp.Store.Reads.{get}
use redis_cpp.Store.Writes.{set, string_value, del_loop, del}
use redis_cpp.Store.Invariant.{IsValid, Updates, store_value-Updates, drop_entry-Updates}
use redis_cpp.Store.View.{peek-found, Writes-view, live, view, view-Updates, Writes, evict-Writes}
use redis_cpp.Store.Lookup.{reply_of, Reads, read_entry-Reads, view-absent, view-gone, view-alive}

pub set-Writes :
    (key value : Bytes) (s : Store)
    → IsValid s
    → Writes s key (some (string_value value)) (set key value s)
unfolding set
set-Writes key value s valid =
    evict-Writes _ (store_value-Updates key (string_value value) s valid empty-IsValid)

-- The reply of GET to the entry in view.
abbrev pub get_of : Option Value → Result Bytes
get_of = reply_of string missing (λ v. success v.str_value)

-- GET on a well-formed store replies nothing for a key that is not in view, WRONGTYPE for one
-- with a list or a hash in view, and otherwise the string, and changes nothing that shows from
-- its instant on.
pub get-Reads :
    (now : ℕ) (key : Bytes) (s : Store)
    → IsValid s
    → Reads now s (get_of (view now key s)) (get now key s)
unfolding get
get-Reads = read_entry-Reads string missing (λ v. success v.str_value) (λ v. refl)

live-string :
    (now : ℕ) (value : Bytes) → live now (some (string_value value)) ≡ some (string_value value)
unfolding is_expired
live-string now value = refl

-- With no memory budget, GET after SET on a well-formed store replies the new value for the key
-- that was set, and for any other key what it replied before.
pub get-set :
    (now : ℕ) (key value q : Bytes) (s : Store)
    → IsValid s
    → s.max_memory_bytes ≡ 0
    → (get now q (set key value s)).0 ≡ (if str_eq key q then success value else (get now q s).0)
get-set now key value q s valid unlimited =
    let w = set-Writes key value s valid in
    (get-Reads now q (set key value s) w.valid).replies
    ∙ rw (Writes-view w unlimited now q, live-string now value)
        (elim (Bool-cases (str_eq key q)) [
          | inl same ↦ rw same refl
          | inr other ↦ rw other (sym (get-Reads now q s valid).replies)
        ])

-- Whether a key is in a list.
abbrev pub member : Bytes → List Bytes → Bool
member q [] = false
member q (k ∷ ks) = if str_eq k q then true else member q ks

-- How many different keys of a list are bound by `f`.
abbrev pub bound_keys : (Bytes → Option Value) → List Bytes → ℕ
bound_keys f [] = 0
bound_keys f (k ∷ ks) = (if member k ks then 0 else to_nat (is_some (f k))) + bound_keys f ks

bound_keys-unbind :
    (f g : Bytes → Option Value) (k : Bytes) (ks : List Bytes)
    → ((q : Bytes) → g q ≡ (if str_eq k q then none else f q))
    → bound_keys f ks ≡ bound_keys g ks + (if member k ks then to_nat (is_some (f k)) else 0)
bound_keys-unbind f g k [] h = omega arith
bound_keys-unbind f g k (j ∷ ks) h =
    ground (arith, h j, bound_keys-unbind f g k ks h, str_eq_iff j k, str_eq_iff k j)

-- `s'` is `s` with the keys of a list unbound, at every instant.
pub record Unbinds (keys : List Bytes) (s s' : Store) : Type 0 where
  pub valid : IsValid s'
  pub views : (t : ℕ) (q : Bytes) → view t q s' ≡ (if member q keys then none else view t q s)
  pub budget : s'.max_memory_bytes ≡ s.max_memory_bytes

-- A key that the table does not hold is in view at no instant.
Updates-absent :
    (key : Bytes) (s : Store) → IsValid s → HashTable.get key s.table ≡ none → Updates s key none s
unfolding view
Updates-absent key s valid e = record {
  valid = valid;
  peeks = λ q. ground (arith, peek-found key s none e, str_eq_iff key q);
  budget = refl;
}

del_one :
    (now : ℕ) (key : Bytes) (s : Store)
    → IsValid s
    → let r : ℕ × Store = elim (HashTable.get key s.table) [
      | none ↦ (0, s)
      | some v ↦ (if is_expired now v then 0 else 1, drop_entry key v s)
    ] in
      (r.0 ≡ to_nat (is_some (view now key s))) × Updates s key none r.1
del_one now key s valid = elim (Option-cases (HashTable.get key s.table)) [
  | inl e ↦ rw (view-absent now key s e, e) (refl, Updates-absent key s valid e)
  | inr (v, e) ↦
      let u = drop_entry-Updates key v s valid e in
      elim (Bool-cases (is_expired now v)) [
        | inl gone ↦ rw (view-gone now key v s e gone, e, gone) (refl, u)
        | inr alive ↦ rw (view-alive now key v s e alive, e, alive) (refl, u)
      ]
]

del_loop-lem :
    (now : ℕ) (keys : List Bytes) (s : Store)
    → IsValid s
    → ((del_loop now keys s).0 ≡ bound_keys (λ q. view now q s) keys)
      × Unbinds keys s (del_loop now keys s).1
unfolding del_loop
del_loop-lem now [] s valid = (refl, record { valid = valid; views = λ t q. refl; budget = refl })
del_loop-lem now (key ∷ keys) s valid =
    let (one, u) = del_one now key s valid in
    let (count, rest) = del_loop-lem now keys _ u.valid in
    (
      ground (
        arith,
        one,
        count,
        bound_keys-unbind (λ q. view now q s) _ key keys (λ q. view-Updates now q u),
      ),
      record {
        valid = rest.valid;
        views = λ t q. ground (arith, rest.views t q, view-Updates t q u);
        budget = rest.budget ∙ u.budget;
      },
    )

-- DEL on a well-formed store replies how many different keys of its list were in view, and leaves
-- a well-formed store that at every instant shows none of them and every other key as before.
pub del-lem :
    (now : ℕ) (keys : List Bytes) (s : Store)
    → IsValid s
    → ((del now keys s).0 ≡ pos (bound_keys (λ q. view now q s) keys))
      × Unbinds keys s (del now keys s).1
unfolding del
del-lem now keys s valid = let r = del_loop-lem now keys s valid in (ap pos r.0, r.1)
