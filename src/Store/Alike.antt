-- ===== src/Store/Alike.antt =====
-- Two stores that show the same to two runs of src/store/store.cpp, which share the instants at
-- which they read the clock or do not.
pub mod Expiry
use redis_cpp.Base.{
  ℕ, ◌≤◌, ◌≡◌, refl, sym, ◌∙◌, ap, inl, inr, Bool, true, false, Option, none, some, List, [], ◌∷◌,
  arith, if◌then◌else◌, Bytes, str_eq, Bool-cases,
}
use redis_cpp.HashTable
use redis_cpp.HashTable.Invariant.{get-empty}
use redis_cpp.Value.{ValueType, Value}
use redis_cpp.Store.{success, Store, is_expired, flush_all}
use redis_cpp.Store.Writes.{modify_entry}
use redis_cpp.Store.Invariant.{IsValid, Updates, peek, flush_all-IsValid}
use redis_cpp.Store.View.{live, view, view-Updates, SameView, Exact, Writes, Writes-view}
use redis_cpp.Store.Lists.{view-not_expired}
use redis_cpp.Store.Listing.{viewed}
use redis_cpp.Store.Modify.{base, Fits, IsChange, modify_entry-Writes}

-- With a clock that is shared an instant of one run is the same instant of the other.
abbrev pub Together : Bool → ℕ → ℕ → Type 0
Together true t t' = t ≡ t'
Together false t t' = Unit

pub one_clock : (shared : Bool) (t t' : ℕ) → Together shared t t' → shared ≡ true → t ≡ t'
one_clock true t t' same h = same
one_clock false t t' same h = absurd (cc h)

-- Both stores show the same, one from `now` and the other from `now'` on. Where the clock is not
-- shared, what they show does not change with time.
pub record Alike (shared : Bool) (now now' : ℕ) (s s' : Store) : Type 0 where
  pub valid : IsValid s
  pub valid' : IsValid s'
  pub unlimited : s.max_memory_bytes ≡ 0
  pub unlimited' : s'.max_memory_bytes ≡ 0
  pub views :
      (t t' : ℕ) (q : Bytes)
      → now ≤ t
      → now' ≤ t'
      → Together shared t t'
      → view t q s ≡ view t' q s'

-- A store in which one key is bound anew, and nothing else shows.
pub record Rebinds (s : Store) (k : Bytes) (o : Option Value) (r : Store) : Type 0 where
  pub valid : IsValid r
  pub exact : Exact s k o r
  pub budget : r.max_memory_bytes ≡ s.max_memory_bytes

pub Writes-Rebinds :
    {s r : Store} {k : Bytes} {o : Option Value}
    → s.max_memory_bytes ≡ 0
    → Writes s k o r
    → Rebinds s k o r
Writes-Rebinds unlimited w = record {
  valid = w.valid;
  exact = Writes-view w unlimited;
  budget = w.budget;
}

pub Updates-Rebinds :
    {s r : Store} {k : Bytes} {o : Option Value} → Updates s k o r → Rebinds s k o r
Updates-Rebinds u = record { valid = u.valid; exact = λ t q. view-Updates t q u; budget = u.budget }

module _ {shared : Bool} {now now' : ℕ} {s s' : Store} (a : Alike shared now now' s s') where
  pub Alike-later : {n n' : ℕ} → now ≤ n → now' ≤ n' → Alike shared n n' s s'
  Alike-later h h' = record {
    valid = a.valid;
    valid' = a.valid';
    unlimited = a.unlimited;
    unlimited' = a.unlimited';
    views = λ t t' q l l' same. a.views t t' q (omega arith) (omega arith) same;
  }

  pub Alike-SameView :
      {r r' : Store} → SameView now s r → SameView now' s' r' → Alike shared now now' r r'
  Alike-SameView x y = record {
    valid = x.valid;
    valid' = y.valid;
    unlimited = x.budget ∙ a.unlimited;
    unlimited' = y.budget ∙ a.unlimited';
    views = λ t t' q l l' same. x.views t q l ∙ a.views t t' q l l' same ∙ sym (y.views t' q l');
  }

  pub Alike-Rebinds :
      {r r' : Store} {k : Bytes} {o o' : Option Value}
      → Rebinds s k o r
      → Rebinds s' k o' r'
      → ((t t' : ℕ) → now ≤ t → now' ≤ t' → Together shared t t' → live t o ≡ live t' o')
      → Alike shared now now' r r'
  Alike-Rebinds {k = k} x y same_value = record {
    valid = x.valid;
    valid' = y.valid;
    unlimited = x.budget ∙ a.unlimited;
    unlimited' = y.budget ∙ a.unlimited';
    views = λ t t' q l l' same.
        rw (x.exact t q, y.exact t' q)
          (elim (Bool-cases (str_eq k q)) [
            | inl here ↦ rw here (same_value t t' l l' same)
            | inr elsewhere ↦ rw elsewhere (a.views t t' q l l' same)
          ]);
  }

module _ (shared : Bool) (now now' : ℕ) (s s' : Store) (together : Together shared now now')
    (a : Alike shared now now' s s') where
  pub view-Alike : (k : Bytes) → view now k s ≡ view now' k s'
  view-Alike k = a.views now now' k (omega arith) (omega arith) together

pub viewed-Alike :
    (shared : Bool) (now now' : ℕ) (s s' : Store)
    → Together shared now now'
    → Alike shared now now' s s'
    → (keys : List Bytes) → viewed now s keys ≡ viewed now' s' keys
viewed-Alike shared now now' s s' together a [] = refl
viewed-Alike shared now now' s s' together a (k ∷ ks) =
    rw
      (
        view-Alike shared now now' s s' together a k,
        viewed-Alike shared now now' s s' together a ks,
      )
      refl

-- What is in view now stays in view in both runs, or goes out of it in both.
steady :
    (shared : Bool) (now now' : ℕ) (s s' : Store)
    → Together shared now now'
    → Alike shared now now' s s'
    → (k : Bytes) (v : Value) → view now k s ≡ some v
    → (t t' : ℕ) → now ≤ t
    → now' ≤ t'
    → Together shared t t'
    → is_expired t v ≡ is_expired t' v
steady true now now' s s' together a k v e t t' l l' same = ap (λ (i : ℕ). is_expired i v) same
steady false now now' s s' together a k v e t t' l l' same =
    let here : view now' k s' ≡ some v =
      sym (a.views now now' k (omega arith) (omega arith) tt) ∙ e in
    view-not_expired t k s v (a.views t now' k l (omega arith) tt ∙ here)
    ∙ sym (view-not_expired t' k s' v (sym (a.views now t' k (omega arith) l' tt) ∙ e))

live-deadline :
    (t t' : ℕ) (ty : ValueType) (o : Option Value) (w : Value)
    → w.expires_at ≡ (base ty o).expires_at
    → ((v : Value) → o ≡ some v → is_expired t v ≡ is_expired t' v)
    → live t (some w) ≡ live t' (some w)
unfolding is_expired
live-deadline t t' ty none w e h = rw e refl
live-deadline t t' ty (some v) w e h = rw (e, h v refl) refl

-- An operation that changes the value of a key does the same to both stores.
pub modify_entry-Alike {ℓ} :
    {A : Type ℓ} (ty : ValueType) (change : Value → A × Value)
    → IsChange change
    → ((v : Value) → (change v).1.expires_at ≡ v.expires_at)
    → (shared : Bool) (now now' : ℕ) (s s' : Store) → Together shared now now'
    → Alike shared now now' s s'
    → (k : Bytes) → Fits ty (view now k s)
    → let reply = success (change (base ty (view now k s))).0 in
      ((modify_entry ty change now k s).0 ≡ reply)
      × ((modify_entry ty change now' k s').0 ≡ reply)
      × Alike shared now now'
          (modify_entry ty change now k s).1
          (modify_entry ty change now' k s').1
modify_entry-Alike ty change c keeps shared now now' s s' together a k fits =
    let e : view now k s ≡ view now' k s' = view-Alike shared now now' s s' together a k in
    let (reply, w) = modify_entry-Writes ty change c now k s a.valid fits in
    let (reply', w') =
      rw (← e) at (modify_entry-Writes ty change c now' k s' a.valid' (rw e at fits)) in
    (
      reply,
      reply',
      Alike-Rebinds a (Writes-Rebinds a.unlimited w) (Writes-Rebinds a.unlimited' w')
          (λ t t' l l' same.
            live-deadline t t' ty (view now k s) _ (keeps (base ty (view now k s)))
              (λ v there. steady shared now now' s s' together a k v there t t' l l' same)),
    )

-- FLUSHALL leaves nothing in view.
pub view-flush_all : (t : ℕ) (q : Bytes) (s : Store) → view t q (flush_all s) ≡ none
unfolding view flush_all peek HashTable.clear
view-flush_all t q s = rw (get-empty {V = Value} q) refl

pub flush_all-Alike :
    (shared : Bool) (now now' : ℕ) (s s' : Store)
    → Alike shared now now' s s'
    → Alike shared now now' (flush_all s) (flush_all s')
unfolding flush_all
flush_all-Alike shared now now' s s' a = record {
  valid = flush_all-IsValid s;
  valid' = flush_all-IsValid s';
  unlimited = a.unlimited;
  unlimited' = a.unlimited';
  views = λ t t' q l l' same. view-flush_all t q s ∙ sym (view-flush_all t' q s');
}

-- What HDEL leaves of a hash in view keeps its deadline.
pub left_over :
    (shared : Bool) (now now' : ℕ) (s s' : Store)
    → Together shared now now'
    → Alike shared now now' s s'
    → (k : Bytes) (v w : Value) (empty : Bool) → view now k s ≡ some v
    → w.expires_at ≡ v.expires_at
    → (t t' : ℕ) → now ≤ t
    → now' ≤ t'
    → Together shared t t'
    → live t (if empty then none else some w) ≡ live t' (if empty then none else some w)
left_over shared now now' s s' together a k v w true e keeps t t' l l' same = refl
left_over shared now now' s s' together a k v w false e keeps t t' l l' same =
    live-deadline t t' v.type (some v) w keeps
      (λ u there. steady shared now now' s s' together a k u (e ∙ there) t t' l l' same)
