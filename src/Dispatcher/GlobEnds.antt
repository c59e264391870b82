-- ===== src/Dispatcher/GlobEnds.antt =====
-- The loop of `GlobMatch` in src/server/dispatcher.cpp comes to an end of its own, on any text.
use native.Mathlib.Nat.{mul-le-mul_right, suc-mul}
use redis_cpp.Base.{
  ℕ, zero, suc, ◌+◌, ◌*◌, ◌≤◌, ◌<◌, ◌≡◌, refl, inl, inr, false, ◌||◌, none, some, [], ◌∷◌, arith,
  ◌==◌, Bool-cases, length, Bytes,
}
use redis_cpp.Dispatcher.Glob.{Star, glob_loop, glob_match}

-- The bytes of the text at which the last star may still end.
abbrev ends : Bytes → Star → ℕ
ends t none = length t
ends t (some (q, u)) = length u

abbrev RoomFor : ℕ → Bytes → Star → Type 0
RoomFor room t none = Unit
RoomFor room t (some (q, u)) = (length q + length u ≤ room) × (length t ≤ length u)

abbrev SameLoop : ℕ → ℕ → Bytes → Bytes → Star → Type 0
SameLoop n m p t star = glob_loop n p t star ≡ glob_loop m p t star

-- Back to the last star.
glob_back :
    (n m c d : ℕ) (p t : Bytes) (star : Star)
    → (c == b'?' || c == d) ≡ false
    → (c == b'*') ≡ false
    → ((q : Bytes) (x : ℕ) (us : Bytes)
        → star ≡ some (q, x ∷ us)
        → SameLoop n m q us (some (q, us)))
    → SameLoop (suc n) (suc m) (c ∷ p) (d ∷ t) star
unfolding glob_loop
glob_back n m c d p t none other plain back = rw (glob_loop, other, plain) refl
glob_back n m c d p t (some (q, [])) other plain back = rw (glob_loop, other, plain) refl
glob_back n m c d p t (some (q, x ∷ us)) other plain back =
    rw (glob_loop, other, plain) (back q x us refl)

-- A round, once its three ways on are the same.
glob_round :
    (n m c d : ℕ) (p t : Bytes) (star : Star)
    → SameLoop n m p t star
    → SameLoop n m p (d ∷ t) (some (p, d ∷ t))
    → ((q : Bytes) (x : ℕ) (us : Bytes)
        → star ≡ some (q, x ∷ us)
        → SameLoop n m q us (some (q, us)))
    → SameLoop (suc n) (suc m) (c ∷ p) (d ∷ t) star
unfolding glob_loop
glob_round n m c d p t star on at_star back = elim (Bool-cases (c == b'?' || c == d)) [
  | inl same ↦ rw (glob_loop, same) on
  | inr other ↦ elim (Bool-cases (c == b'*')) [
    | inl found ↦ rw (glob_loop, other, found) at_star
    | inr plain ↦ glob_back n m c d p t star other plain back
  ]
]

star_later :
    (room n : ℕ) (p t : Bytes) (c d : ℕ) (star : Star)
    → RoomFor room (d ∷ t) star
    → length (c ∷ p) + length (d ∷ t) ≤ room
    → ends (d ∷ t) star * room + length (c ∷ p) + length (d ∷ t) < suc n
    → length (d ∷ t) * room + length p + length (d ∷ t) < n
star_later room n p t c d none h fits enough = omega (arith, enough)
star_later room n p t c d (some (q, u)) h fits enough =
    omega (arith, enough, mul-le-mul_right room h.1)

byte_later :
    (room n : ℕ) (p t : Bytes) (c d : ℕ) (star : Star)
    → ends (d ∷ t) star * room + length (c ∷ p) + length (d ∷ t) < suc n
    → ends t star * room + length p + length t < n
byte_later room n p t c d none enough = omega (arith, enough, suc-mul (length t) room)
byte_later room n p t c d (some (q, u)) enough = omega (arith, enough)

RoomFor-tail :
    (room d : ℕ) (t : Bytes) (star : Star) → RoomFor room (d ∷ t) star → RoomFor room t star
RoomFor-tail room d t none h = tt
RoomFor-tail room d t (some (q, u)) h = (h.0, omega (arith, h.1))

back_later :
    (room n : ℕ) (p t q us : Bytes) (x d : ℕ) (star : Star)
    → star ≡ some (q, x ∷ us)
    → RoomFor room (d ∷ t) star
    → ends (d ∷ t) star * room + length p + length (d ∷ t) < suc n
    → (length us * room + length q + length us < n) × (length q + length us ≤ room)
back_later room n p t q us x d star e h enough =
    let fits = rw e at h in
    let long = rw e at enough in
    (omega (arith, long, fits.0, suc-mul (length us) room), omega (arith, fits.0))

glob_loop_enough :
    (n m room : ℕ) (p t : Bytes) (star : Star)
    → RoomFor room t star
    → length p + length t ≤ room
    → ends t star * room + length p + length t < n
    → ends t star * room + length p + length t < m
    → SameLoop n m p t star
unfolding glob_loop
glob_loop_enough n m room p [] star h fits enough enough' = refl
glob_loop_enough zero m room p (d ∷ t) star h fits enough enough' = absurd (omega arith)
glob_loop_enough (suc n) zero room p (d ∷ t) star h fits enough enough' = absurd (omega arith)
glob_loop_enough (suc n) (suc m) room [] (d ∷ t) none h fits enough enough' = refl
glob_loop_enough (suc n) (suc m) room [] (d ∷ t) (some (q, [])) h fits enough enough' = refl
glob_loop_enough (suc n) (suc m) room [] (d ∷ t) (some (q, x ∷ us)) h fits enough enough' =
    let a = back_later room n [] t q us x d (some (q, x ∷ us)) refl h enough in
    let b = back_later room m [] t q us x d (some (q, x ∷ us)) refl h enough' in
    glob_loop_enough n m room q us (some (q, us)) (a.1, omega arith) a.1 a.0 b.0
glob_loop_enough (suc n) (suc m) room (c ∷ p) (d ∷ t) star h fits enough enough' =
    glob_round n m c d p t star
      (glob_loop_enough n m room p t star (RoomFor-tail room d t star h) (omega (arith, fits))
        (byte_later room n p t c d star enough) (byte_later room m p t c d star enough'))
      (glob_loop_enough n m room p (d ∷ t) (some (p, d ∷ t)) (omega (arith, fits), omega arith)
        (omega (arith, fits)) (star_later room n p t c d star h fits enough)
        (star_later room m p t c d star h fits enough'))
      (λ q x us e.
        let a = back_later room n (c ∷ p) t q us x d star e h enough in
        let b = back_later room m (c ∷ p) t q us x d star e h enough' in
        glob_loop_enough n m room q us (some (q, us)) (a.1, omega arith) a.1 a.0 b.0)

-- Any more fuel changes nothing.
pub glob_match_enough :
    (fuel : ℕ) (pattern text : Bytes)
    → (length text + 1) * (length pattern + length text + 2) ≤ fuel
    → glob_loop fuel pattern text none ≡ glob_match pattern text
unfolding glob_match
glob_match_enough fuel pattern text h =
    let m = length text in
    let n = length pattern in
    let bound : m * (n + m) + n + m < (m + 1) * (n + m + 2) = grind arith in
    glob_loop_enough fuel ((m + 1) * (n + m + 2)) (n + m) pattern text none tt (omega arith)
      (omega (arith, bound, h)) bound
