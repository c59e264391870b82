-- ===== src/Dispatcher/Keyspace.antt =====
-- The keyspace that the clients of src/server/dispatcher.cpp see: a store, but for its buckets, its
-- stamps and what has expired. It is a quotient of the well-formed stores with no memory budget.
use mathlib.Core.Quot
use mathlib.Core.Quot.{Quot, Quot-set}
use redis_cpp.Base.{
  Bool-cases, inl, inr, ℕ, ◌≡◌, refl, ◌∙◌, ap, true, List, [], ◌∷◌, arith, codes, Bytes, str_eq,
  str_eq_iff, some, if◌then◌else◌,
}
use redis_cpp.Store.{Store, is_expired}
use redis_cpp.Store.Invariant.{IsValid}
use redis_cpp.Store.View.{view, SameView, SameView-refl, Writes-view}
use redis_cpp.Store.Strings.{set-Writes}
use redis_cpp.Store.Writes
use redis_cpp.Store.Writes.{string_value}
use redis_cpp.Store.Alike.{Alike, Alike-SameView}
use redis_cpp.Dispatcher.{dispatch, run, command_of}
use redis_cpp.Dispatcher.Handlers.{do_set}
use redis_cpp.Dispatcher.Replies.{to_upper}
use redis_cpp.Dispatcher.Sameness.{dispatch-Twin}

abbrev pub Plain : Type 0
Plain = (s : Store) × IsValid s × (s.max_memory_bytes ≡ 0)

-- They show the same from an instant on.
abbrev pub Shows : ℕ → Plain → Plain → Type 0
Shows now p q = Alike true now now p.0 q.0

abbrev pub Keyspace : ℕ → Type 0
Keyspace now = Quot (Shows now)

pub Shows-refl : (now : ℕ) (p : Plain) → Shows now p p
Shows-refl now (s, valid, unlimited) = record {
  valid = valid;
  valid' = valid;
  unlimited = unlimited;
  unlimited' = unlimited;
  views = λ t t' q l l' same. ap (λ (i : ℕ). view i q s) same;
}

Shows-SameView : (now : ℕ) (p q : Plain) → SameView now p.0 q.0 → Shows now q p
Shows-SameView now p q same = Alike-SameView (Shows-refl now p) same (SameView-refl now p.0 p.1)

Shows-views :
    (now : ℕ) (p q : Plain) → ((t : ℕ) (k : Bytes) → view t k p.0 ≡ view t k q.0) → Shows now p q
Shows-views now (s, valid, unlimited) (s', valid', unlimited') h = record {
  valid = valid;
  valid' = valid';
  unlimited = unlimited;
  unlimited' = unlimited';
  views = λ t t' q l l' same. h t q ∙ ap (λ (i : ℕ). view i q s') same;
}

module _ (now : ℕ) (name : Bytes) (args : List Bytes) where
  pub twins :
      (p q : Plain)
      → Shows now p q
      → Alike true now now (dispatch now name args p.0).store (dispatch now name args q.0).store
  twins p q h = (dispatch-Twin true now now name args p.0 q.0 refl h refl).stores

  -- The store behind a command.
  pub dispatched : Plain → Plain
  dispatched p =
      let a = twins p p (Shows-refl now p) in
      ((dispatch now name args p.0).store, a.valid, a.unlimited)

  -- A command on the keyspace.
  pub step : Keyspace now → Keyspace now
  unfolding dispatched
  step = Quot.lift Quot-set (λ p. Quot.mk (dispatched p)) (λ p q h. Quot.sound (twins p q h))

module _ (now : ℕ) where
  abbrev pub set_step : Bytes → Bytes → Keyspace now → Keyspace now
  set_step key value = step now (codes "SET") (key ∷ value ∷ [])

  set_exact :
      (key value : Bytes) (p : Plain) (t : ℕ) (q : Bytes)
      → view t q (Writes.set key value p.0)
        ≡ (if str_eq key q then some (string_value value) else view t q p.0)
  unfolding is_expired
  set_exact key value (s, valid, unlimited) t q =
      Writes-view (set-Writes key value s valid) unlimited t q

  -- On the keyspace a SET behind a SET of the same key is as if it stood alone, and two SETs of
  -- different keys commute.
  pub set_step-set_step :
      (key value key' value' : Bytes) (k : Keyspace now)
      → set_step key value (set_step key' value' k) ≡ (
          if str_eq key key'
          then set_step key value k
          else set_step key' value' (set_step key value k))
  unfolding step dispatched dispatch run command_of do_set to_upper str_eq
  set_step-set_step key value key' value' =
      Quot.ind (λ k. Quot-set _ _)
        (λ p.
          let set_dispatched = λ (k v : Bytes). dispatched now (codes "SET") (k ∷ v ∷ []) in
          let first = set_dispatched key' value' p in
          let second = set_dispatched key value p in
          elim (Bool-cases (str_eq key key')) [
            | inl same ↦ rw same (
                Quot.sound (
                  Shows-views now (set_dispatched key value first) second (λ t q. ground (
                    arith,
                    set_exact key value first t q,
                    set_exact key' value' p t q,
                    set_exact key value p t q,
                    str_eq_iff key key',
                    same,
                  ))))
            | inr different ↦ rw different (
                Quot.sound (
                  Shows-views now (set_dispatched key value first)
                    (set_dispatched key' value' second)
                    (λ t q. ground (
                      arith,
                      set_exact key value first t q,
                      set_exact key' value' p t q,
                      set_exact key value p t q,
                      set_exact key' value' second t q,
                      str_eq_iff key q,
                      str_eq_iff key' q,
                      str_eq_iff key key',
                      different,
                    ))))
          ])
