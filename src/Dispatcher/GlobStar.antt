-- ===== src/Dispatcher/GlobStar.antt =====
-- `GlobMatch` of src/server/dispatcher.cpp on the pattern that is to match every key.
use redis_cpp.Base.{
  ◌∙◌, ℕ, zero, suc, ◌+◌, ◌*◌, ◌≤◌, ◌≡◌, refl, inl, inr, Bool, true, false, not, ◌||◌, [], ◌∷◌,
  some, none, arith, ◌==◌, ap, Bool-cases, length, codes, Bytes,
}
use redis_cpp.Dispatcher.Glob.{glob_loop, glob_match, only_stars}

abbrev pub is_empty : Bytes → Bool
is_empty [] = true
is_empty (c ∷ t) = false

-- A star at the end of the pattern takes the rest of the text.
glob_loop-star :
    (fuel : ℕ) (t : Bytes) → length t ≤ fuel → glob_loop fuel [] t (some ([], t)) ≡ true
unfolding glob_loop only_stars
glob_loop-star zero [] h = refl
glob_loop-star (suc fuel) [] h = refl
glob_loop-star zero (c ∷ t) h = absurd (omega arith)
glob_loop-star (suc fuel) (c ∷ t) h = glob_loop-star fuel t (omega arith)

no_star : (fuel : ℕ) (t : Bytes) → glob_loop (suc fuel) [] t none ≡ is_empty t
unfolding glob_loop only_stars
no_star fuel [] = refl
no_star fuel (c ∷ t) = refl

first_star :
    (fuel c : ℕ) (t : Bytes)
    → length t ≤ fuel
    → glob_loop (suc (suc fuel)) (b'*' ∷ []) (c ∷ t) none ≡ (not (c == b'*') || is_empty t)
unfolding glob_loop only_stars
first_star fuel c t h = elim (Bool-cases (b'*' == c)) [
  | inl star ↦
      let same : (c == b'*') ≡ true = ground arith in rw (glob_loop, star, same) (no_star fuel t)
  | inr other ↦
      let different : (c == b'*') ≡ false = ground arith in
      rw (glob_loop, other, different) (glob_loop-star (suc fuel) (c ∷ t) (omega arith))
]

-- The pattern of one star matches a key that is not empty exactly if the key does not start with
-- a star, or is a star and no more.
pub glob_match-star :
    (c : ℕ) (t : Bytes) → glob_match (codes "*") (c ∷ t) ≡ (not (c == b'*') || is_empty t)
unfolding glob_match
glob_match-star c t =
    let n = length t in
    let enough : (suc n + 1) * (1 + suc n + 2) ≡ suc (suc (n * n + 6 * n + 6)) = grind arith in
    let long : n ≤ n * n + 6 * n + 6 = omega arith in
    ap (λ (fuel : ℕ). glob_loop fuel (b'*' ∷ []) (c ∷ t) none) enough
    ∙ first_star (n * n + 6 * n + 6) c t long
