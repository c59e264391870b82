-- ===== src/Store/Expiry.antt =====
-- EXPIRE and TTL of src/store/store.cpp over time.
use redis_cpp.Base.{
  ℕ, ◌+◌, ◌-◌, ◌*◌, ◌/◌, ◌%◌, ◌^◌, ◌≤◌, ◌<◌, ◌≡◌, refl, inl, inr, Bool, true, false, Option, none,
  some, arith, if◌then◌else◌, ltb, Bytes, str_eq_refl, Bool-cases, Option-cases,
}
use redis_cpp.Base.Int.{ℤ, pos, negsuc, pos_part, leb_ℤ}
use redis_cpp.HashTable
use redis_cpp.HashTable.Methods.{put_at-Binds}
use redis_cpp.Value.{Value}
use redis_cpp.Store.{Store, payload_bytes, is_expired}
use redis_cpp.Store.Reads.{ttl}
use redis_cpp.Store.Writes.{deadline, expire}
use redis_cpp.Store.Invariant.{IsValid, Updates, Binds-Updates, drop_entry-Updates}
use redis_cpp.Store.View.{view, view-Updates, SameView, SameView-refl, drop_entry-SameView}
use redis_cpp.Store.Lookup.{ttl-Reads, view-absent, view-gone, view-alive}

payload_bytes-deadline :
    (v : Value) (d : Option ℤ) → payload_bytes (record v { expires_at = d }) ≡ payload_bytes v
unfolding payload_bytes
payload_bytes-deadline v d = refl

-- The value of a key after EXPIRE with a positive number of seconds.
abbrev pub expiring : ℕ → ℕ → Value → Value
expiring now seconds v = record v { expires_at = some (deadline now seconds) }

-- What EXPIRE does to the entry in view.
abbrev pub Expires : ℕ → Bytes → ℤ → Store → Option Value → Bool × Store → Type 0
Expires now key seconds s none r = (r.0 ≡ false) × SameView now s r.1
Expires now key seconds s (some v) r =
    (r.0 ≡ true)
    × Updates s key
        (if leb_ℤ seconds (pos 0) then none else some (expiring now (pos_part seconds) v)) r.1

-- EXPIRE on a well-formed store replies false and shows no change if the key is not in view;
-- otherwise it replies true and removes the key, if the seconds are not positive, or else sets
-- the deadline and nothing else.
pub expire-Expires :
    (now : ℕ) (key : Bytes) (seconds : ℤ) (s : Store)
    → IsValid s
    → Expires now key seconds s (view now key s) (expire now key seconds s)
unfolding expire
expire-Expires now key seconds s valid = elim (Option-cases (HashTable.get key s.table)) [
  | inl e ↦ rw (view-absent now key s e, e, expire) (refl, SameView-refl now s valid)
  | inr (v, e) ↦ elim (Bool-cases (is_expired now v)) [
    | inl gone ↦
        rw (view-gone now key v s e gone, e, expire, gone)
          (refl, drop_entry-SameView now key v s valid e gone)
    | inr alive ↦ elim (Bool-cases (leb_ℤ seconds (pos 0))) [
      | inl at_once ↦
          rw (view-alive now key v s e alive, e, expire, alive, at_once)
            (refl, drop_entry-Updates key v s valid e)
      | inr later ↦
          let v' : Value = expiring now (pos_part seconds) v in
          rw (view-alive now key v s e alive, e, expire, alive, later)
            (
              refl,
              Binds-Updates s (record s { table = HashTable.put_at key v' s.table }) key (some v')
                  valid (put_at-Binds key v' v s.table valid.table e)
                  (rw e (
                    omega (
                      arith,
                      valid.accounted,
                      payload_bytes-deadline v (some (deadline now (pos_part seconds))),
                    )))
                  refl (valid.hashes key v e),
            )
    ]
  ]
]

pub expires-at :
    (now : ℕ) (key : Bytes) (n : ℕ) (s : Store) (v : Value)
    → IsValid s
    → view now key s ≡ some v
    → 0 < n
    → Updates s key (some (expiring now n v)) (expire now key (pos n) s).1
expires-at now key n s v valid there positive =
    let more : leb_ℤ (pos n) (pos 0) ≡ false = ground arith in
    (rw (there, more) at (expire-Expires now key (pos n) s valid)).1

-- The time after which the key is gone, and the rounding of TTL.
abbrev pub end_of_life : ℕ → ℕ → ℕ
end_of_life now n = now + n * 1000000000

abbrev pub rounded_seconds : ℕ → ℕ
rounded_seconds ns = (ns / 1000000 + 500) / 1000

-- After EXPIRE with a positive number of seconds, on a key in view of a well-formed store, with a
-- deadline that fits 63 bits, the key is in view with its value at every instant before the
-- deadline and at none from it on.
pub view-expire :
    (now t : ℕ) (key : Bytes) (n : ℕ) (s : Store) (v : Value)
    → IsValid s
    → view now key s ≡ some v
    → 0 < n
    → end_of_life now n < 2 ^ 63
    → view t key (expire now key (pos n) s).1
      ≡ (if ltb t (end_of_life now n) then some (expiring now n v) else none)
unfolding is_expired
view-expire now t key n s v valid there positive fits =
    rw (view-Updates t key (expires-at now key n s v valid there positive), str_eq_refl key)
      (ground arith)

-- After EXPIRE with a positive number of seconds, on a key in view of a well-formed store, with a
-- deadline that fits 63 bits, TTL replies at any instant before the deadline the time left,
-- rounded to the nearest second, and -2 from then on.
pub ttl-expire :
    (now t : ℕ) (key : Bytes) (n : ℕ) (s : Store) (v : Value)
    → IsValid s
    → view now key s ≡ some v
    → 0 < n
    → end_of_life now n < 2 ^ 63
    → (ttl t key (expire now key (pos n) s).1).0 ≡ (
        if ltb t (end_of_life now n)
        then pos (rounded_seconds (end_of_life now n - t))
        else negsuc 1)
ttl-expire now t key n s v valid there positive fits =
    let u = expires-at now key n s v valid there positive in
    rw
      (
        (ttl-Reads t key (expire now key (pos n) s).1 u.valid).replies,
        view-expire now t key n s v valid there positive fits,
      )
      (ground arith)

-- EXPIRE with a positive number of seconds, on a key in view of a well-formed store, whose
-- deadline in nanoseconds wraps to a negative 64-bit number replies true, and the key is in view
-- at no instant.
pub expire_overflow :
    (now t : ℕ) (key : Bytes) (n : ℕ) (s : Store) (v : Value)
    → IsValid s
    → view now key s ≡ some v
    → 0 < n
    → 2 ^ 63 ≤ end_of_life now n % 2 ^ 64
    → ((expire now key (pos n) s).0 ≡ true) × (view t key (expire now key (pos n) s).1 ≡ none)
unfolding is_expired
expire_overflow now t key n s v valid there positive wraps =
    let more : leb_ℤ (pos n) (pos 0) ≡ false = ground arith in
    (
      (rw (there, more) at (expire-Expires now key (pos n) s valid)).0,
      rw (view-Updates t key (expires-at now key n s v valid there positive), str_eq_refl key)
          (ground arith),
    )
