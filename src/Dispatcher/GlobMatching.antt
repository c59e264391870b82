-- ===== src/Dispatcher/GlobMatching.antt =====
-- `GlobMatch` of src/server/dispatcher.cpp against a definition of matching by cases.
use native.Mathlib.Nat.{mul-le-mul_right, suc-mul}
use redis_cpp.Base.{
  ℕ, zero, suc, ◌+◌, ◌*◌, ◌≤◌, ◌<◌, ◌≡◌, refl, sym, ◌∙◌, ap, inl, inr, Bool, true, false, ◌&&◌,
  ◌||◌, none, some, [], ◌∷◌, arith, ◌==◌, if◌then◌else◌, Bool-cases, length, Bytes, All,
}
use redis_cpp.Dispatcher.Glob.{Star, glob_loop, glob_match, only_stars}
use redis_cpp.Dispatcher.GlobStar.{is_empty}

-- A star matches any run of bytes, `?` any byte, and any other byte itself.
unfoldable pub matches : Bytes → Bytes → Bool
matches [] t = is_empty t
matches (c ∷ p) [] = c == b'*' && matches p []
matches (c ∷ p) (d ∷ t) =
    if c == b'*'
    then matches p (d ∷ t) || matches (c ∷ p) t
    else (c == b'?' || c == d) && matches p t

-- A shorter end of the text matches.
unfoldable later : Bytes → Bytes → Bool
later q [] = false
later q (x ∷ u) = matches q u || later q u

-- A byte of the text that is no star.
abbrev pub IsPlain : ℕ → Type 0
IsPlain d = (d == b'*') ≡ false

only_stars-matches : (p : Bytes) → only_stars p ≡ matches p []
unfolding only_stars matches
only_stars-matches [] = refl
only_stars-matches (c ∷ p) = ap (λ b. c == b'*' && b) (only_stars-matches p)

matches_star : (p t : Bytes) → matches (b'*' ∷ p) t ≡ (matches p t || later p t)
unfolding matches later
matches_star p [] = ground arith
matches_star p (d ∷ t) = ap (λ b. matches p (d ∷ t) || b) (matches_star p t)

-- What a star matches behind a byte it matches before it.
later_star : (p t : Bytes) → later (b'*' ∷ p) t ≡ true → matches (b'*' ∷ p) t ≡ true
unfolding matches later
later_star p [] h = absurd (cc (h))
later_star p (d ∷ t) h = ground (arith, h, later_star p t)

-- Without a star, what matches a shorter end takes a byte of it.
later_byte :
    (c d : ℕ) (p t : Bytes) → (c == b'*') ≡ false → later (c ∷ p) (d ∷ t) ≡ true → later p t ≡ true
unfolding matches later
later_byte c d p [] plain h = ground (arith, h, plain)
later_byte c d p (e ∷ t) plain h = ground (arith, h, plain, later_byte c e p t plain)

or_false : (b : Bool) → b ≡ (b || false)
or_false true = refl
or_false false = refl

-- A byte that takes one of a plain text is no star.
not_star : (c d : ℕ) → IsPlain d → (c == b'?' || c == d) ≡ true → (c == b'*') ≡ false
not_star c d plain h = ground arith

absorb : (a b : Bool) → (b ≡ true → a ≡ true) → a ≡ (a || b)
absorb true b h = refl
absorb false true h = h refl
absorb false false h = refl

-- A byte that does not match: back to the last star.
glob_retry :
    (fuel c d : ℕ) (p t q u : Bytes)
    → (c == b'?' || c == d) ≡ false
    → (c == b'*') ≡ false
    → ((x : ℕ) (us : Bytes)
        → u ≡ x ∷ us
        → glob_loop fuel q us (some (q, us)) ≡ (matches q us || later q us))
    → glob_loop (suc fuel) (c ∷ p) (d ∷ t) (some (q, u)) ≡ (matches (c ∷ p) (d ∷ t) || later q u)
unfolding glob_loop matches later
glob_retry fuel c d p t q [] other plain back = rw (glob_loop, other, plain) refl
glob_retry fuel c d p t q (x ∷ us) other plain back = rw (glob_loop, other, plain) (back x us refl)

-- A star of the pattern: the last star from now on.
glob_star :
    (fuel c d : ℕ) (p t : Bytes) (last : Star)
    → (c == b'?' || c == d) ≡ false
    → (c == b'*') ≡ true
    → glob_loop fuel p (d ∷ t) (some (p, d ∷ t)) ≡ (matches p (d ∷ t) || later p (d ∷ t))
    → glob_loop (suc fuel) (c ∷ p) (d ∷ t) last ≡ matches (c ∷ p) (d ∷ t)
unfolding glob_loop
glob_star fuel c d p t last other star ih =
    let same : c ≡ b'*' = ground arith in
    rw (glob_loop, other, star)
      (ih ∙ sym (matches_star p (d ∷ t)) ∙ ap (λ (x : ℕ). matches (x ∷ p) (d ∷ t)) (sym same))

-- What the star before would match, this one does.
star_absorbs :
    (c d : ℕ) (p t q u : Bytes)
    → (c == b'*') ≡ true
    → (later q u ≡ true → later (c ∷ p) (d ∷ t) ≡ true)
    → matches (c ∷ p) (d ∷ t) ≡ (matches (c ∷ p) (d ∷ t) || later q u)
star_absorbs c d p t q u star follows =
    let same : c ≡ b'*' = ground arith in
    absorb (matches (c ∷ p) (d ∷ t)) (later q u)
      (λ h. rw same (later_star p (d ∷ t) (rw same at (follows h))))

-- The loop behind a star: the pattern matches here, or that behind the star further on.
glob_loop-some :
    (fuel room : ℕ) (p t q u : Bytes)
    → All IsPlain t
    → All IsPlain u
    → (later q u ≡ true → later p t ≡ true)
    → length t ≤ length u
    → length p + length t ≤ room
    → length q + length u ≤ room
    → length u * room + length p + length t < fuel
    → glob_loop fuel p t (some (q, u)) ≡ (matches p t || later q u)
unfolding glob_loop matches later
glob_loop-some fuel room p [] q u ok ok' follows short fits fits' enough =
    elim (Bool-cases (later q u)) [
      | inl there ↦ absurd (cc (follows there))
      | inr gone ↦ rw gone (only_stars-matches p ∙ or_false (matches p []))
    ]
glob_loop-some zero room p (d ∷ t) q u ok ok' follows short fits fits' enough = absurd (omega arith)
glob_loop-some (suc fuel) room [] (d ∷ t) q [] ok ok' follows short fits fits' enough = refl
glob_loop-some (suc fuel) room [] (d ∷ t) q (x ∷ u) ok ok' follows short fits fits' enough =
    glob_loop-some fuel room q u q u ok'.1 ok'.1 (λ h. h) (omega arith) (omega arith) (omega arith)
      (omega (arith, enough, suc-mul (length u) room))
glob_loop-some (suc fuel) room (c ∷ p) (d ∷ t) q u ok ok' follows short fits fits' enough =
    elim (Bool-cases (c == b'?' || c == d)) [
      | inl same ↦
          let plain = not_star c d ok.0 same in
          let ih =
            glob_loop-some fuel room p t q u ok.1 ok' (λ h. later_byte c d p t plain (follows h))
              (omega arith) (omega arith) (omega arith) (omega (arith, enough)) in
          rw (glob_loop, same, plain) ih
      | inr other ↦ elim (Bool-cases (c == b'*')) [
        | inl star ↦
            glob_star fuel c d p t (some (q, u)) other star (
              glob_loop-some fuel room p (d ∷ t) p (d ∷ t) ok ok (λ h. h) (omega arith)
                (omega (arith, fits)) (omega (arith, fits))
                (omega (arith, enough, mul-le-mul_right room short)))
            ∙ star_absorbs c d p t q u star follows
        | inr plain ↦ glob_retry fuel c d p t q u other plain (λ x us e.
            let ends = rw e at ok' in
            let size = ap length e in
            glob_loop-some fuel room q us q us ends.1 ends.1 (λ h. h) (omega arith)
              (omega (arith, fits', size)) (omega (arith, fits', size))
              (omega (arith, rw e at enough, rw e at fits', suc-mul (length us) room)))
      ]
    ]

-- The loop before the first star.
glob_loop-none :
    (fuel room : ℕ) (p t : Bytes)
    → All IsPlain t
    → length p + length t ≤ room
    → length t * room + length p + length t < fuel
    → glob_loop fuel p t none ≡ matches p t
unfolding glob_loop matches
glob_loop-none fuel room p [] ok fits enough = only_stars-matches p
glob_loop-none zero room p (d ∷ t) ok fits enough = absurd (omega arith)
glob_loop-none (suc fuel) room [] (d ∷ t) ok fits enough = refl
glob_loop-none (suc fuel) room (c ∷ p) (d ∷ t) ok fits enough =
    elim (Bool-cases (c == b'?' || c == d)) [
      | inl same ↦
          let plain = not_star c d ok.0 same in
          rw (glob_loop, same, plain)
            (glob_loop-none fuel room p t ok.1 (omega arith)
              (omega (arith, enough, suc-mul (length t) room)))
      | inr other ↦ elim (Bool-cases (c == b'*')) [
        | inl star ↦ glob_star fuel c d p t none other star (
            glob_loop-some fuel room p (d ∷ t) p (d ∷ t) ok ok (λ h. h) (omega arith)
              (omega (arith, fits)) (omega (arith, fits)) (omega (arith, enough)))
        | inr plain ↦ rw (glob_loop, other, plain) refl
      ]
    ]

-- On a text with no star in it, GlobMatch says exactly whether the pattern matches the whole
-- text: a star any run of bytes, a question mark any byte, and every other byte itself.
pub glob_match-matches :
    (pattern text : Bytes) → All IsPlain text → glob_match pattern text ≡ matches pattern text
unfolding glob_match
glob_match-matches pattern text ok =
    let m = length text in
    let n = length pattern in
    let bound : m * (n + m) + n + m < (m + 1) * (n + m + 2) = grind arith in
    glob_loop-none ((m + 1) * (n + m + 2)) (n + m) pattern text ok (omega arith) bound
