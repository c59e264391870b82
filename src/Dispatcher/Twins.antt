-- ===== src/Dispatcher/Twins.antt =====
-- The handlers of src/server/dispatcher.cpp on two stores that show the same.
use redis_cpp.Base.{
  ℕ, ◌≡◌, refl, sym, ◌∙◌, ap, inl, inr, Bool, ◌⊎◌, Option, none, some, List, arith, Bytes,
  Bool-cases,
}
use mathlib.Core.Path.{fun_ext}
use redis_cpp.Base.Int.{ℤ}
use redis_cpp.Value.{ValueType, hash, Value}
use redis_cpp.Store.{Result, Store, is_expired}
use redis_cpp.Store.Invariant.{strip}
use redis_cpp.Store.View.{view}
use redis_cpp.Store.Alike.{
  Together, Alike, Alike-SameView, Alike-Rebinds, Updates-Rebinds, Writes-Rebinds, view-Alike,
  modify_entry-Alike, left_over,
}
use redis_cpp.Store.Listing.{listed}
use redis_cpp.Store.Lookup.{reply_of, Reads, read_entry-Reads}
use redis_cpp.Store.Strings.{set-Writes, del-lem}
use redis_cpp.Store.HashDeletes.{hdel-lem, hdel_wrong, HdelEffect}
use redis_cpp.Store.Modify.{IsChange, modify_entry_wrong}
use redis_cpp.Store.Reads.{read_entry}
use redis_cpp.Store.Writes
use redis_cpp.Store.Writes.{modify_entry, expire}
use redis_cpp.Resp.{RespValue, integer}
use redis_cpp.Dispatcher.Replies.{
  Outcome, refused, answered, written, is_ok, answer_with, write_with, wrong_type_error, bulk_array,
}
use redis_cpp.Dispatcher.Effects.{Fits-cases}

-- How the replies of two runs compare: they are equal, or may list in another order, or nothing
-- is said of them.
pub data Likeness : Type 0 where
  equal reordered untold : Likeness

-- Two arrays of the same texts, each as often.
pub record Reordered (r r' : RespValue) : Type 0 where
  pub items : List Bytes
  pub items' : List Bytes
  pub shape : r ≡ bulk_array items
  pub shape' : r' ≡ bulk_array items'
  pub counts : (q : Bytes) → listed q items ≡ listed q items'

abbrev pub Said : Likeness → RespValue → RespValue → Type 0
Said equal r r' = r ≡ r'
Said reordered r r' = (r ≡ r') ⊎ Reordered r r'
Said untold r r' = Unit

pub Said-refl : (said : Likeness) (r r' : RespValue) → r ≡ r' → Said said r r'
Said-refl equal r r' e = e
Said-refl reordered r r' e = inl e
Said-refl untold r r' e = tt

-- What a command does in two runs.
pub record Twin (shared : Bool) (now now' : ℕ) (said : Likeness) (o o' : Outcome) : Type 0 where
  pub stores : Alike shared now now' o.store o'.store
  pub logged : o.logged ≡ o'.logged
  pub replies : Said said o.reply o'.reply

pub Twin-mute :
    {shared : Bool} {now now' : ℕ} {o o' : Outcome} (said : Likeness)
    → Twin shared now now' equal o o'
    → Twin shared now now' said o o'
Twin-mute said x = record {
  stores = x.stores;
  logged = x.logged;
  replies = Said-refl said _ _ x.replies;
}

module _ (shared : Bool) (now now' : ℕ) (s s' : Store) (together : Together shared now now')
    (a : Alike shared now now' s s') where
  pub refused-Twin :
      (reply : RespValue) → Twin shared now now' equal (refused reply s) (refused reply s')
  refused-Twin reply = record { stores = a; logged = refl; replies = refl }

  -- A reply from what is in view.
  pub answered-Twin {ℓ} :
      {A : Type ℓ} (show : A → RespValue) (reply reply' : A) (r r' : A × Store)
      → reply ≡ reply'
      → Reads now s reply r
      → Reads now' s' reply' r'
      → Twin shared now now' equal (answered (show r.0) r.1) (answered (show r'.0) r'.1)
  answered-Twin show reply reply' r r' e x y = record {
    stores = Alike-SameView a x.same y.same;
    logged = refl;
    replies = ap show (x.replies ∙ e ∙ sym y.replies);
  }

  pub answer_with-Twin {ℓ} :
      {A : Type ℓ} (show : Option A → RespValue) (q : Result A) (r r' : Result A × Store)
      → Reads now s q r
      → Reads now' s' q r'
      → Twin shared now now' equal (answer_with show r) (answer_with show r')
  answer_with-Twin show q r r' x y =
      rw (x.replies, y.replies)
        (elim (Bool-cases (is_ok q)) [
          | inl ok ↦
              rw ok
                (record { stores = Alike-SameView a x.same y.same; logged = refl; replies = refl })
          | inr wrong ↦
              rw wrong
                (record { stores = Alike-SameView a x.same y.same; logged = refl; replies = refl })
        ])

  pub read-Twin {ℓ} :
      {A : Type ℓ} (ty : ValueType) (absent : Result A) (answer : Value → Result A)
      (show : Option A → RespValue)
      → ((v : Value) → answer (strip v) ≡ answer v)
      → (k : Bytes)
      → Twin shared now now' equal
          (answer_with show (read_entry ty absent answer now k s))
          (answer_with show (read_entry ty absent answer now' k s'))
  read-Twin ty absent answer show stampless k =
      let e = view-Alike shared now now' s s' together a k in
      answer_with-Twin show (reply_of ty absent answer (view now k s)) _ _
        (read_entry-Reads ty absent answer stampless now k s a.valid)
        (rw (← e) at (read_entry-Reads ty absent answer stampless now' k s' a.valid'))

  pub written-Twin :
      (reply : RespValue) (r r' : Store)
      → Alike shared now now' r r'
      → Twin shared now now' equal (written reply r) (written reply r')
  written-Twin reply r r' x = record { stores = x; logged = refl; replies = refl }

  pub set-Alike :
      (key value : Bytes) → Alike shared now now' (Writes.set key value s) (Writes.set key value s')
  unfolding is_expired
  set-Alike key value =
      Alike-Rebinds a (Writes-Rebinds a.unlimited (set-Writes key value s a.valid))
        (Writes-Rebinds a.unlimited' (set-Writes key value s' a.valid')) (λ t t' l l' same. refl)

  pub modify-Twin :
      (ty : ValueType) (change : Value → ℤ × Value)
      → IsChange change
      → ((v : Value) → (change v).1.expires_at ≡ v.expires_at)
      → (show : Option ℤ → RespValue) (k : Bytes)
      → Twin shared now now' equal
          (write_with show (modify_entry ty change now k s))
          (write_with show (modify_entry ty change now' k s'))
  modify-Twin ty change c keeps show k = elim (Fits-cases ty (view now k s)) [
    | inl fits ↦
        let (reply, reply', r) =
          modify_entry-Alike ty change c keeps shared now now' s s' together a k fits in
        rw (reply, reply') (written-Twin _ _ _ r)
    | inr (v, e, wrong) ↦
        let e' = sym (view-Alike shared now now' s s' together a k) ∙ e in
        rw
          (
            modify_entry_wrong ty change now k s v a.valid e wrong,
            modify_entry_wrong ty change now' k s' v a.valid' e' wrong,
          )
          (refused-Twin wrong_type_error)
  ]

  pub hdel-Twin :
      (fields : List Bytes) (show : Option ℤ → RespValue) (k : Bytes)
      → Twin shared now now' equal
          (write_with show (Writes.hdel fields now k s))
          (write_with show (Writes.hdel fields now' k s'))
  hdel-Twin fields show k = elim (Fits-cases hash (view now k s)) [
    | inl fits ↦
        let e = view-Alike shared now now' s s' together a k in
        go (view now k s) refl (hdel-lem fields now k s a.valid fits)
          (rw (← e) at (hdel-lem fields now' k s' a.valid' (rw e at fits)))
    | inr (v, e, wrong) ↦
        let e' = sym (view-Alike shared now now' s s' together a k) ∙ e in
        rw (hdel_wrong fields now k s v e wrong, hdel_wrong fields now' k s' v e' wrong)
          (refused-Twin wrong_type_error)
  ]
    where
      go :
          (o : Option Value)
          → view now k s ≡ o
          → HdelEffect now fields k s o (Writes.hdel fields now k s)
          → HdelEffect now' fields k s' o (Writes.hdel fields now' k s')
          → Twin shared now now' equal
              (write_with show (Writes.hdel fields now k s))
              (write_with show (Writes.hdel fields now' k s'))
      go none e (reply, same) (reply', same') =
          rw (reply, reply') (written-Twin _ _ _ (Alike-SameView a same same'))
      go (some v) e (reply, u) (reply', u') =
          rw (reply, reply')
            (written-Twin _ _ _ (
              Alike-Rebinds a (Updates-Rebinds u) (Updates-Rebinds u') (λ t t' l l' same.
                left_over shared now now' s s' together a k v _ _ e refl t t' l l' same)))

  pub del-Twin :
      (keys : List Bytes)
      → Twin shared now now' equal
          (written (integer (Writes.del now keys s).0) (Writes.del now keys s).1)
          (written (integer (Writes.del now' keys s').0) (Writes.del now' keys s').1)
  del-Twin keys =
      let (reply, u) = del-lem now keys s a.valid in
      let (reply', u') = del-lem now' keys s' a.valid' in
      let e : (λ q. view now q s) ≡ (λ q. view now' q s') =
        fun_ext (view-Alike shared now now' s s' together a) in
      rw (reply, reply', e)
        (written-Twin _ _ _ (record {
          valid = u.valid;
          valid' = u'.valid;
          unlimited = u.budget ∙ a.unlimited;
          unlimited' = u'.budget ∙ a.unlimited';
          views = λ t t' q l l' same.
              ground (arith, u.views t q, u'.views t' q, a.views t t' q l l' same);
        }))
