-- ===== src/Rdb/Checksum.antt =====
-- `Fnv1a64` of src/persistence/rdb.cpp tells two contents apart that differ in one byte.
use Prim.Native.Nat.{differ, digits, bit_xor, bit_xor-bitwise}
use native.Mathlib.Nat.{pow-suc}
use redis_cpp.Base.{
  ℕ, zero, suc, ◌+◌, ◌*◌, ◌/◌, ◌%◌, ◌^◌, ◌≤◌, ◌<◌, ◌≡◌, refl, sym, ◌∙◌, [], ◌∷◌, ◌++◌, arith, Bytes,
  All,
}
use redis_cpp.HashTable.{fnv1a}

-- The digits of an exclusive or, by the number of rounds.
abbrev xor_digits : ℕ → ℕ → ℕ → ℕ
xor_digits n a b = digits (λ m. m) differ n a b

differ-bits : (u w : ℕ) → u < 2 → w < 2 → differ u w ≡ (u + w) % 2
differ-bits zero w hu hw = omega arith
differ-bits (suc zero) zero hu hw = refl
differ-bits (suc zero) (suc zero) hu hw = refl
differ-bits (suc zero) (suc (suc w)) hu hw = absurd (omega arith)
differ-bits (suc (suc u)) w hu hw = absurd (omega arith)

xor_digits-zero : (n b : ℕ) → xor_digits n 0 b ≡ b
xor_digits-zero zero b = refl
xor_digits-zero (suc n) b = refl

xor_digits-suc :
    (n a b : ℕ)
    → a ≤ suc n
    → xor_digits (suc n) a b ≡ xor_digits n (a / 2) (b / 2) * 2 + (a % 2 + b % 2) % 2
xor_digits-suc n zero b h = omega (arith, xor_digits-zero n (b / 2))
xor_digits-suc n (suc a) b h =
    omega (arith, differ-bits (suc a % 2) (b % 2) (omega arith) (omega arith))

xor_digits-fuel : (n m a b : ℕ) → a ≤ n → a ≤ m → xor_digits n a b ≡ xor_digits m a b
xor_digits-fuel zero m zero b h k = sym (xor_digits-zero m b)
xor_digits-fuel zero m (suc a) b h k = absurd (omega arith)
xor_digits-fuel (suc n) zero zero b h k = refl
xor_digits-fuel (suc n) zero (suc a) b h k = absurd (omega arith)
xor_digits-fuel (suc n) (suc m) a b h k = omega (
  arith,
  xor_digits-suc n a b h,
  xor_digits-suc m a b k,
  xor_digits-fuel n m (a / 2) (b / 2) (omega arith) (omega arith),
)

xor_digits-left : (n a a' b : ℕ) → a ≤ n → a' ≤ n → xor_digits n a b ≡ xor_digits n a' b → a ≡ a'
xor_digits-left zero a a' b h h' e = omega arith
xor_digits-left (suc n) a a' b h h' e =
    let one = xor_digits-suc n a b h in
    let two = xor_digits-suc n a' b h' in
    let halves : xor_digits n (a / 2) (b / 2) ≡ xor_digits n (a' / 2) (b / 2) =
      omega (arith, one, two, e) in
    omega (
      arith,
      one,
      two,
      e,
      xor_digits-left n (a / 2) (a' / 2) (b / 2) (omega arith) (omega arith) halves,
    )

xor_digits-right : (n a b b' : ℕ) → a ≤ n → xor_digits n a b ≡ xor_digits n a b' → b ≡ b'
xor_digits-right zero a b b' h e = e
xor_digits-right (suc n) a b b' h e =
    let one = xor_digits-suc n a b h in
    let two = xor_digits-suc n a b' h in
    let halves : xor_digits n (a / 2) (b / 2) ≡ xor_digits n (a / 2) (b' / 2) =
      omega (arith, one, two, e) in
    omega (arith, one, two, e, xor_digits-right n (a / 2) (b / 2) (b' / 2) (omega arith) halves)

xor_digits-lt : (k n a b : ℕ) → a ≤ n → a < 2 ^ k → b < 2 ^ k → xor_digits n a b < 2 ^ k
xor_digits-lt zero n zero b h ha hb = omega (arith, xor_digits-zero n b)
xor_digits-lt zero n (suc a) b h ha hb = absurd (omega arith)
xor_digits-lt (suc k) zero a b h ha hb = hb
xor_digits-lt (suc k) (suc n) a b h ha hb = omega (
  arith,
  pow-suc 2 k,
  xor_digits-suc n a b h,
  xor_digits-lt k n (a / 2) (b / 2) (omega arith) (omega (arith, pow-suc 2 k))
      (omega (arith, pow-suc 2 k)),
)

bit_xor-left : (a a' b : ℕ) → bit_xor a b ≡ bit_xor a' b → a ≡ a'
bit_xor-left a a' b e = xor_digits-left (a + a') a a' b (omega arith) (omega arith) (
    xor_digits-fuel (a + a') a a b (omega arith) (omega arith)
    ∙ sym (bit_xor-bitwise a b)
    ∙ e
    ∙ bit_xor-bitwise a' b
    ∙ xor_digits-fuel a' (a + a') a' b (omega arith) (omega arith))

bit_xor-right : (a b b' : ℕ) → bit_xor a b ≡ bit_xor a b' → b ≡ b'
bit_xor-right a b b' e =
    xor_digits-right a a b b' (omega arith) (sym (bit_xor-bitwise a b) ∙ e ∙ bit_xor-bitwise a b')

bit_xor-lt : (a b : ℕ) → a < 2 ^ 64 → b < 2 ^ 64 → bit_xor a b < 2 ^ 64
bit_xor-lt a b h k = rw (bit_xor-bitwise a b) (xor_digits-lt 64 a a b (omega arith) h k)

-- The prime is odd, so multiplying by it loses nothing.
times_prime :
    (x y : ℕ)
    → x < 2 ^ 64
    → y < 2 ^ 64
    → x * 1099511628211 % 2 ^ 64 ≡ y * 1099511628211 % 2 ^ 64
    → x ≡ y
times_prime x y hx hy e = omega arith

-- A byte of a content.
abbrev pub IsByte : ℕ → Type 0
IsByte c = c < 256

step-lt : (h c : ℕ) → bit_xor h c * 1099511628211 % 2 ^ 64 < 2 ^ 64
step-lt h c = omega arith

fnv1a-seed :
    (bytes : Bytes) (h h' : ℕ)
    → All IsByte bytes
    → h < 2 ^ 64
    → h' < 2 ^ 64
    → fnv1a h bytes ≡ fnv1a h' bytes
    → h ≡ h'
unfolding fnv1a
fnv1a-seed [] h h' ok small small' e = e
fnv1a-seed (c ∷ bytes) h h' ok small small' e =
    let byte : c < 2 ^ 64 = omega (arith, ok.0) in
    bit_xor-left h h' c (
      times_prime (bit_xor h c) (bit_xor h' c) (bit_xor-lt h c small byte)
        (bit_xor-lt h' c small' byte) (fnv1a-seed bytes _ _ ok.1 (step-lt h c) (step-lt h' c) e))

-- The checksum of a content changes with any one byte of it.
pub fnv1a-byte :
    (before after : Bytes) (c d h : ℕ)
    → All IsByte after
    → IsByte c
    → IsByte d
    → h < 2 ^ 64
    → fnv1a h (before ++ (c ∷ after)) ≡ fnv1a h (before ++ (d ∷ after))
    → c ≡ d
unfolding fnv1a
fnv1a-byte [] after c d h ok byte byte' small e = bit_xor-right h c d (
    times_prime (bit_xor h c) (bit_xor h d) (bit_xor-lt h c small (omega arith))
      (bit_xor-lt h d small (omega arith)) (fnv1a-seed after _ _ ok (step-lt h c) (step-lt h d) e))
fnv1a-byte (b ∷ before) after c d h ok byte byte' small e =
    fnv1a-byte before after c d (bit_xor h b * 1099511628211 % 2 ^ 64) ok byte byte' (step-lt h b) e
