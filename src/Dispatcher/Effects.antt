-- ===== src/Dispatcher/Effects.antt =====
-- What every command of src/server/dispatcher.cpp keeps: the store stays well formed, a command that
-- is not logged changes nothing that shows, and an error reply is never logged.
use redis_cpp.Base.{
  ℕ, ◌≡◌, refl, ◌⊎◌, inl, inr, Bool, true, false, ◌&&◌, Option, none, some, arith, Bool-cases,
  Bytes,
}
use redis_cpp.Base.Int.{ℤ}
use redis_cpp.Value.{ValueType, Value, type_eq}
use redis_cpp.Store.{Result, Store}
use redis_cpp.Store.Invariant.{IsValid}
use redis_cpp.Store.View.{view, SameView, SameView-refl}
use redis_cpp.Store.Modify.{Fits, IsChange, modify_entry-Writes, modify_entry_wrong}
use redis_cpp.Store.Expiry.{Expires, expire-Expires}
use redis_cpp.Store.Writes.{modify_entry, expire}
use redis_cpp.Resp.{RespValue, error}
use redis_cpp.Dispatcher.Replies.{
  Outcome, refused, answered, written, is_ok, answer_with, write_with, wrong_type_error,
}

abbrev pub is_error : RespValue → Bool
is_error (error _) = true
is_error _ = false

-- What a command that is logged, or not, may change.
abbrev pub Quiet : Bool → ℕ → Store → Store → Type 0
Quiet true now s s' = IsValid s'
Quiet false now s s' = SameView now s s'

pub record Effect (now : ℕ) (s : Store) (o : Outcome) : Type 0 where
  pub valid : IsValid o.store
  pub quiet : Quiet o.logged now s o.store
  pub errors : (is_error o.reply && o.logged) ≡ false

pub same-Effect :
    {now : ℕ} {s s' : Store} (reply : RespValue)
    → SameView now s s'
    → Effect now s (answered reply s')
same-Effect reply same = record { valid = same.valid; quiet = same; errors = ground arith }

pub refused-Effect :
    {now : ℕ} {s : Store} (reply : RespValue) → IsValid s → Effect now s (refused reply s)
refused-Effect {now} {s} reply v = same-Effect reply (SameView-refl now s v)

pub written-Effect :
    {now : ℕ} {s s' : Store} (reply : RespValue)
    → is_error reply ≡ false
    → IsValid s'
    → Effect now s (written reply s')
written-Effect reply fine v = record { valid = v; quiet = v; errors = ground (arith, fine) }

module _ {ℓ} {A : Type ℓ} (now : ℕ) (s : Store) (show : Option A → RespValue)
    (r : Result A × Store) where
  pub answer_with-Effect : SameView now s r.1 → Effect now s (answer_with show r)
  answer_with-Effect same = elim (Bool-cases (is_ok r.0)) [
    | inl ok ↦ rw ok (same-Effect (show r.0.value) same)
    | inr wrong ↦ rw wrong (same-Effect wrong_type_error same)
  ]

  pub write_with-Effect :
      ((a : Option A) → is_error (show a) ≡ false)
      → IsValid r.1
      → (is_ok r.0 ≡ false → SameView now s r.1)
      → Effect now s (write_with show r)
  write_with-Effect fine valid same = elim (Bool-cases (is_ok r.0)) [
    | inl ok ↦ rw ok (written-Effect (show r.0.value) (fine r.0.value) valid)
    | inr wrong ↦ rw wrong (same-Effect wrong_type_error (same wrong))
  ]

pub Fits-cases :
    (ty : ValueType) (o : Option Value)
    → Fits ty o ⊎ ((v : Value) × (o ≡ some v) × (type_eq v.type ty ≡ false))
Fits-cases ty none = inl tt
Fits-cases ty (some v) = elim (Bool-cases (type_eq v.type ty)) [
  | inl right ↦ inl right
  | inr wrong ↦ inr (v, refl, wrong)
]

pub modify_entry-Effect :
    (ty : ValueType) (change : Value → ℤ × Value)
    → IsChange change
    → (now : ℕ) (k : Bytes) (s : Store) → IsValid s
    → (show : Option ℤ → RespValue) → ((a : Option ℤ) → is_error (show a) ≡ false)
    → Effect now s (write_with show (modify_entry ty change now k s))
modify_entry-Effect ty change c now k s valid show fine = elim (Fits-cases ty (view now k s)) [
  | inl fits ↦
      let (reply, w) = modify_entry-Writes ty change c now k s valid fits in
      write_with-Effect now s show _ fine w.valid (λ h. absurd (ground (arith, h, reply)))
  | inr (v, e, wrong) ↦
      rw (modify_entry_wrong ty change now k s v valid e wrong)
        (same-Effect wrong_type_error (SameView-refl now s valid))
]

pub expire-IsValid :
    (now : ℕ) (k : Bytes) (n : ℤ) (s : Store) → IsValid s → IsValid (expire now k n s).1
expire-IsValid now k n s valid = go (view now k s) (expire-Expires now k n s valid)
  where
    go : (o : Option Value) → Expires now k n s o (expire now k n s) → IsValid (expire now k n s).1
    go none h = h.1.valid
    go (some v) h = h.1.valid
