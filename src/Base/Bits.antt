-- ===== src/Base/Bits.antt =====
-- `x & (n - 1)`, the index of a bucket: it is below `n`, and it is `x % n` for a power of two.
use Prim.Native.Nat.{
  ℕ, zero, suc, ◌+◌, ◌-◌, ◌*◌, ◌/◌, ◌%◌, ◌^◌, ◌≤◌, ◌<◌, min, bit_and, digits, bit_and-bitwise,
}
use mathlib.Core.Path.{◌≡◌, sym, ap, ◌∙◌}
use native.Mathlib.Omega.{arith}
use native.Mathlib.Nat.{pow-suc, add-mul-mod_self_right, mod-eq_of_lt, div-add-mod', mod-lt}

-- No digit of the result is above that of the mask.
digits-le : (fuel x mask : ℕ) → x ≤ fuel → digits (λ m. 0) min fuel x mask ≤ mask
digits-le zero zero mask enough = omega arith
digits-le (suc fuel) zero mask enough = omega arith
digits-le zero (suc x) mask enough = absurd (omega arith)
digits-le (suc fuel) (suc x) mask enough =
    omega (arith, digits-le fuel (suc x / 2) (mask / 2) (omega arith))

pub bit_and_mask-lt : (a n : ℕ) → 0 < n → bit_and a (n - 1) < n
bit_and_mask-lt a n h =
    omega (arith, bit_and-bitwise a (n - 1), digits-le a a (n - 1) (omega arith))

pub pow-pos : (k : ℕ) → 0 < 2 ^ k
pow-pos zero = omega arith
pow-pos (suc k) = omega (arith, pow-suc 2 k, pow-pos k)

mod_double : (a p : ℕ) → 0 < p → a % (p * 2) ≡ a / 2 % p * 2 + a % 2
mod_double a p h =
    let r = a / 2 % p in
    let q = a / 2 / p in
    let small : r < p = mod-lt (a / 2) h in
    let whole : r * 2 + a % 2 + q * (p * 2) ≡ a = grind (arith, div-add-mod' (a / 2) p) in
    let low : r * 2 + a % 2 < p * 2 = omega arith in
    ap (λ (t : ℕ). t % (p * 2)) (sym whole)
    ∙ add-mul-mod_self_right (r * 2 + a % 2) q (p * 2)
    ∙ mod-eq_of_lt low

-- Digit by digit, a mask of ones keeps the digits below its length.
digits-ones : (fuel k x : ℕ) → x ≤ fuel → digits (λ m. 0) min fuel x (2 ^ k - 1) ≡ x % 2 ^ k
digits-ones zero k zero enough = sym (mod-eq_of_lt (pow-pos k))
digits-ones (suc fuel) k zero enough = sym (mod-eq_of_lt (pow-pos k))
digits-ones zero k (suc x) enough = absurd (omega arith)
digits-ones (suc fuel) zero (suc x) enough =
    omega (arith, digits-le fuel (suc x / 2) 0 (omega arith))
digits-ones (suc fuel) (suc k) (suc x) enough =
    let p = 2 ^ k in
    let half : (p * 2 - 1) / 2 ≡ p - 1 = omega (arith, pow-pos k) in
    rw (pow-suc 2 k, half, digits-ones fuel k (suc x / 2) (omega arith))
      (omega (arith, pow-pos k, mod_double (suc x) p (pow-pos k)))

-- The bit trick of `BucketIndex`.
pub bit_and_mask-mod : (k a : ℕ) → bit_and a (2 ^ k - 1) ≡ a % 2 ^ k
bit_and_mask-mod k a = bit_and-bitwise a (2 ^ k - 1) ∙ digits-ones a k a (omega arith)
