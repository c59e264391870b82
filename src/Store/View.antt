-- ===== src/Store/View.antt =====
-- What a client of the store can see at an instant: the entries that have not expired.
use redis_cpp.Base.{
  zero, suc, ℕ, ◌≤◌, ◌≡◌, refl, ◌∙◌, ◌⊎◌, inl, inr, true, Option, none, some, List, [], ◌∷◌, arith,
  if◌then◌else◌, Bytes, str_eq, str_eq_iff, Bool-cases, Option-cases,
}
use redis_cpp.HashTable
use redis_cpp.Value.{Value}
use redis_cpp.Store.{
  Store, is_expired, touch, drop_entry, delete_if_expired, delete_all_expired, evict_if_over_budget,
}
use redis_cpp.Store.Invariant.{
  IsValid, strip, strip_entry, peek, Updates, touch-Updates, drop_entry-Updates,
}
use redis_cpp.Store.Evict.{HasStopped, evict-lem, evict_unlimited}

-- An entry is there until its deadline.
abbrev pub live : ℕ → Option Value → Option Value
live now none = none
live now (some v) = if is_expired now v then none else some v

unfoldable pub view : ℕ → Bytes → Store → Option Value
view now k s = live now (peek k s)

pub is_expired-strip : (now : ℕ) (v : Value) → is_expired now (strip v) ≡ is_expired now v
unfolding is_expired
is_expired-strip now v = refl

-- What has expired stays expired.
pub is_expired_mono : (a b : ℕ) (v : Value) → a ≤ b → is_expired a v ≡ true → is_expired b v ≡ true
unfolding is_expired
is_expired_mono a b v h e = ground arith

-- `s'` shows what `s` shows, from `now` on.
pub record SameView (now : ℕ) (s s' : Store) : Type 0 where
  pub valid : IsValid s'
  pub views : (t : ℕ) (q : Bytes) → now ≤ t → view t q s' ≡ view t q s
  pub budget : s'.max_memory_bytes ≡ s.max_memory_bytes

pub SameView-refl : (now : ℕ) (s : Store) → IsValid s → SameView now s s
SameView-refl now s v = record { valid = v; views = λ t q h. refl; budget = refl }

pub SameView-trans :
    {now : ℕ} {s₀ s₁ s₂ : Store} → SameView now s₀ s₁ → SameView now s₁ s₂ → SameView now s₀ s₂
SameView-trans a b = record {
  valid = b.valid;
  views = λ t q h. b.views t q h ∙ a.views t q h;
  budget = b.budget ∙ a.budget;
}

pub view-Updates :
    (t : ℕ) (q : Bytes) {s s' : Store} {k : Bytes} {o : Option Value}
    → Updates s k o s'
    → view t q s' ≡ (if str_eq k q then live t o else view t q s)
unfolding view
view-Updates t q u = ground (arith, u.peeks q)

-- The value that the table holds for a key, seen through `peek`.
pub peek-found :
    (k : Bytes) (s : Store) (o : Option Value)
    → HashTable.get k s.table ≡ o
    → peek k s ≡ strip_entry o
unfolding peek
peek-found k s o e = rw e refl

pub touch-SameView :
    (now : ℕ) (k : Bytes) (v : Value) (s : Store)
    → IsValid s
    → HashTable.get k s.table ≡ some v
    → SameView now s (touch k v s)
unfolding view
touch-SameView now k v s valid found =
    let u = touch-Updates k v s valid found in
    record {
      valid = u.valid;
      views = λ t q h. ground (arith, u.peeks q, peek-found k s (some v) found, str_eq_iff k q);
      budget = u.budget;
    }

-- A removal of an expired entry does not show.
pub drop_entry-SameView :
    (now : ℕ) (k : Bytes) (v : Value) (s : Store)
    → IsValid s
    → HashTable.get k s.table ≡ some v
    → is_expired now v ≡ true
    → SameView now s (drop_entry k v s)
unfolding view
drop_entry-SameView now k v s valid found gone =
    let u = drop_entry-Updates k v s valid found in
    record {
      valid = u.valid;
      views = λ t q h. ground (
        arith,
        u.peeks q,
        peek-found k s (some v) found,
        str_eq_iff k q,
        is_expired_mono now t v h gone,
        is_expired-strip t v,
      );
      budget = u.budget;
    }

pub delete_if_expired-SameView :
    (now : ℕ) (k : Bytes) (s : Store) → IsValid s → SameView now s (delete_if_expired now k s).1
unfolding delete_if_expired
delete_if_expired-SameView now k s valid = elim (Option-cases (HashTable.get k s.table)) [
  | inl absent ↦ rw (absent, delete_if_expired) (SameView-refl now s valid)
  | inr (v, found) ↦ elim (Bool-cases (is_expired now v)) [
    | inl gone ↦
        rw (found, delete_if_expired, gone) (drop_entry-SameView now k v s valid found gone)
    | inr alive ↦ rw (found, delete_if_expired, alive) (SameView-refl now s valid)
  ]
]

pub delete_all_expired-SameView :
    (now : ℕ) (keys : List Bytes) (s : Store)
    → IsValid s
    → SameView now s (delete_all_expired now keys s)
unfolding delete_all_expired
delete_all_expired-SameView now [] s valid = SameView-refl now s valid
delete_all_expired-SameView now (k ∷ keys) s valid =
    let first = delete_if_expired-SameView now k s valid in
    SameView-trans first
      (delete_all_expired-SameView now keys (delete_if_expired now k s).1 first.valid)

-- A statement that is made of a number that is zero only.
abbrev pub WhenZero : ℕ → Type 0 → Type 0
WhenZero zero P = P
WhenZero (suc n) P = Unit

when_zero : (n : ℕ) (P : Type 0) → (n ≡ 0 → P) → WhenZero n P
when_zero zero P f = f refl
when_zero (suc n) P f = tt

pub at_zero : (n : ℕ) (P : Type 0) → n ≡ 0 → WhenZero n P → P
at_zero zero P e p = p
at_zero (suc n) P e p = absurd (omega arith)

-- At every instant what shows of `s'` is what shows of `s`, but for `o` at the key `k`.
abbrev pub Exact : Store → Bytes → Option Value → Store → Type 0
Exact s k o s' = (t : ℕ) (q : Bytes) → view t q s' ≡ (if str_eq k q then live t o else view t q s)

-- A write of `o` at the key `k`, followed by eviction.
pub record Writes (s : Store) (k : Bytes) (o : Option Value) (s' : Store) : Type 0 where
  pub valid : IsValid s'
  -- with no memory budget the write is all that happens, at every instant
  pub exact : WhenZero s.max_memory_bytes (Exact s k o s')
  -- with one, entries may be gone besides
  pub bounded :
      (t : ℕ) (q : Bytes)
      → (view t q s' ≡ none) ⊎ (view t q s' ≡ (if str_eq k q then live t o else view t q s))
  pub budget : s'.max_memory_bytes ≡ s.max_memory_bytes
  pub stopped : (s.max_memory_bytes ≡ 0) ⊎ HasStopped s'

pub evict-Writes :
    {s : Store} (s₁ : Store) {k : Bytes} {o : Option Value}
    → Updates s k o s₁
    → Writes s k o (evict_if_over_budget s₁)
unfolding view
evict-Writes {s} s₁ {k} {o} u =
    let (e, stop) = evict-lem s₁ u.valid in
    record {
      valid = e.valid;
      exact = when_zero s.max_memory_bytes (Exact s k o (evict_if_over_budget s₁)) (λ none_set t q.
          rw (evict_unlimited s₁ (u.budget ∙ none_set)) (unfold view in view-Updates t q u));
      bounded = λ t q. ground (arith, e.survivors q, u.peeks q);
      budget = e.budget ∙ u.budget;
      stopped = ground (arith, stop, u.budget);
    }

-- With no memory budget the write is all that happens.
pub Writes-view :
    {s s' : Store} {k : Bytes} {o : Option Value}
    → Writes s k o s'
    → s.max_memory_bytes ≡ 0
    → Exact s k o s'
Writes-view {s} w unlimited = at_zero s.max_memory_bytes _ unlimited w.exact
