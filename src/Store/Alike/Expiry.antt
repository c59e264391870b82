-- ===== src/Store/Alike/Expiry.antt =====
-- `Expire` of src/store/store.cpp on two stores that show the same, with the clock shared.
use redis_cpp.Base.{
  ℕ, ◌≡◌, refl, sym, ◌∙◌, ap, Bool, true, false, Option, none, some, if◌then◌else◌, Bytes,
}
use redis_cpp.Base.Int.{ℤ, pos, pos_part, leb_ℤ}
use redis_cpp.Value.{Value}
use redis_cpp.Store.{Store}
use redis_cpp.Store.View.{live, view}
use redis_cpp.Store.Alike.{
  Together, Alike, Alike-SameView, Alike-Rebinds, Updates-Rebinds, view-Alike,
}
use redis_cpp.Store.Expiry.{Expires, expiring, expire-Expires}
use redis_cpp.Store.Writes.{expire}

expire_at_once :
    (now : ℕ) (s s' : Store)
    → Alike true now now s s'
    → (key : Bytes) (seconds : ℤ)
    → ((expire now key seconds s).0 ≡ (expire now key seconds s').0)
      × Alike true now now (expire now key seconds s).1 (expire now key seconds s').1
expire_at_once now s s' a key seconds =
    go (view now key s) (expire-Expires now key seconds s a.valid) (
      rw (← view-Alike true now now s s' refl a key) at
        (expire-Expires now key seconds s' a.valid'))
  where
    go :
        (o : Option Value)
        → Expires now key seconds s o (expire now key seconds s)
        → Expires now key seconds s' o (expire now key seconds s')
        → ((expire now key seconds s).0 ≡ (expire now key seconds s').0)
          × Alike true now now (expire now key seconds s).1 (expire now key seconds s').1
    go none (reply, same) (reply', same') = (reply ∙ sym reply', Alike-SameView a same same')
    go (some v) (reply, u) (reply', u') = (
      reply ∙ sym reply',
      Alike-Rebinds a (Updates-Rebinds u) (Updates-Rebinds u') (λ t t' l l' same.
          ap
            (λ (i : ℕ).
              live i
                (if leb_ℤ seconds (pos 0) then none else some (expiring now (pos_part seconds) v)))
            same),
    )

pub expire-Alike :
    (shared : Bool) (now now' : ℕ) (s s' : Store)
    → shared ≡ true
    → Together shared now now'
    → Alike shared now now' s s'
    → (key : Bytes) (seconds : ℤ)
    → ((expire now key seconds s).0 ≡ (expire now' key seconds s').0)
      × Alike shared now now' (expire now key seconds s).1 (expire now' key seconds s').1
expire-Alike false now now' s s' h together a key seconds = absurd (cc h)
expire-Alike true now now' s s' h together a key seconds =
    rw (← together) (expire_at_once now s s' (rw (← together) at a) key seconds)
