-- ===== src/Store/Slice.antt =====
-- The index arithmetic of `LRange` in src/store/store.cpp against a description with no clamping:
-- the elements at the positions between the two bounds, each counted from its own end.
use Prim.Native.Nat.{max, min}
use redis_cpp.Base.{
  ℕ, zero, suc, ◌+◌, ◌-◌, ◌^◌, ◌≤◌, ◌<◌, ◌≡◌, refl, sym, ◌∙◌, ap, inl, inr, Bool, false, ◌&&◌, List,
  [], ◌∷◌, arith, if◌then◌else◌, ltb, leb, Bool-cases, length, take, drop,
}
use redis_cpp.Base.Int.{ℤ, pos, negsuc, pos_part, ◌+ℤ◌, ltb_ℤ, to_int32}
use redis_cpp.Store.Reads.{normalize_index, max_ℤ, min_ℤ, slice}

-- The elements at the positions that pass a test; the first of the list has the position `p`.
pub select {ℓ} : {A : Type ℓ} → (ℕ → Bool) → ℕ → List A → List A
select test p [] = []
select test p (x ∷ xs) = if test p then x ∷ select test (suc p) xs else select test (suc p) xs

-- Position `p` of `n` is at or after a bound, or at or before it; -1 is the last position.
abbrev pub at_or_after : ℤ → ℕ → ℕ → Bool
at_or_after (pos a) n p = leb a p
at_or_after (negsuc a) n p = leb n (p + suc a)

abbrev pub at_or_before : ℤ → ℕ → ℕ → Bool
at_or_before (pos b) n p = leb p b
at_or_before (negsuc b) n p = leb (p + suc b) n

abbrev pub between : ℤ → ℤ → ℕ → ℕ → Bool
between start stop n p = at_or_after start n p && at_or_before stop n p

take-nil {ℓ} : {A : Type ℓ} (n : ℕ) → take {A = A} n [] ≡ []
take-nil zero = refl
take-nil (suc n) = refl

drop-nil {ℓ} : {A : Type ℓ} (n : ℕ) → drop {A = A} n [] ≡ []
drop-nil zero = refl
drop-nil (suc n) = refl

-- A test that passes exactly from `lo` on and below `hi` selects one window of the list.
module _ {ℓ} {A : Type ℓ} (test : ℕ → Bool) (lo hi : ℕ) where
  select-window :
      (p : ℕ) (xs : List A)
      → ((q : ℕ) → p ≤ q → q < p + length xs → test q ≡ (leb lo q && ltb q hi))
      → select test p xs ≡ take (hi - max lo p) (drop (lo - p) xs)
  unfolding select
  select-window p [] same = rw (drop-nil (lo - p)) (sym (take-nil (hi - max lo p)))
  select-window p (x ∷ xs) same =
      let ih = select-window (suc p) xs (λ q a b. same q (omega arith) (omega arith)) in
      let here = same p (omega arith) (omega arith) in
      elim (Bool-cases (leb lo p)) [
        | inr before ↦
            let less : p < lo = ground arith in
            let e : lo - p ≡ suc (lo - suc p) = omega arith in
            let m : max lo p ≡ max lo (suc p) = omega arith in rw (here, before, e, m) ih
        | inl after ↦
            let more : lo ≤ p = ground arith in
            let z : lo - p ≡ 0 = omega arith in
            let z' : lo - suc p ≡ 0 = omega arith in
            elim (Bool-cases (ltb p hi)) [
              | inl inside ↦
                  let below : p < hi = ground arith in
                  let m : hi - max lo p ≡ suc (hi - max lo (suc p)) = omega arith in
                  rw (here, after, inside, z, m) (ap (λ (l : List A). x ∷ l) (rw z' at ih))
              | inr beyond ↦
                  let above : hi ≤ p = ground arith in
                  let m : hi - max lo p ≡ 0 = omega arith in
                  let m' : hi - max lo (suc p) ≡ 0 = omega arith in
                  rw (here, after, beyond, m) (rw m' at ih)
            ]
      ]

-- The first position at or after a bound, and the one behind the last at or before a bound.
abbrev low : ℤ → ℕ → ℕ
low (pos a) n = a
low (negsuc a) n = n - suc a

abbrev high : ℤ → ℕ → ℕ
high (pos b) n = min (suc b) n
high (negsuc b) n = n - b

abbrev norm_stop : ℤ → ℕ → ℤ
norm_stop stop n = min_ℤ (normalize_index stop (pos n)) (pos n +ℤ negsuc 0)

norm_start-low :
    (start : ℤ) (n : ℕ) → max_ℤ (normalize_index start (pos n)) (pos 0) ≡ pos (low start n)
unfolding normalize_index ◌+ℤ◌
norm_start-low (pos a) n = ground arith
norm_start-low (negsuc a) n = ground arith

norm_stop-high : (stop : ℤ) (n l : ℕ) → ltb_ℤ (norm_stop stop n) (pos l) ≡ leb (high stop n) l
unfolding normalize_index ◌+ℤ◌
norm_stop-high (pos b) n l = ground arith
norm_stop-high (negsuc b) n l = ground arith

norm_stop-part :
    (stop : ℤ) (n : ℕ) → 0 < high stop n → pos_part (norm_stop stop n) + 1 ≡ high stop n
unfolding normalize_index ◌+ℤ◌
norm_stop-part (pos b) n h = ground arith
norm_stop-part (negsuc b) n h = ground arith

between-window :
    (start stop : ℤ) (n p : ℕ)
    → p < n
    → between start stop n p ≡ (leb (low start n) p && ltb p (high stop n))
between-window (pos a) (pos b) n p h = ground arith
between-window (pos a) (negsuc b) n p h = ground arith
between-window (negsuc a) (pos b) n p h = ground arith
between-window (negsuc a) (negsuc b) n p h = ground arith

high-le : (stop : ℤ) (n : ℕ) → high stop n ≤ n
high-le (pos b) n = omega arith
high-le (negsuc b) n = omega arith

take-none {ℓ} : {A : Type ℓ} (n : ℕ) (xs : List A) → n ≡ 0 → [] ≡ take n xs
take-none n xs e = rw e refl

slice-window {ℓ} :
    {A : Type ℓ} (start stop : ℤ) (l : List A)
    → length l < 2 ^ 31
    → slice start stop l
      ≡ take (high stop (length l) - low start (length l)) (drop (low start (length l)) l)
unfolding slice
slice-window {A} start stop l h =
    let n = length l in
    let fits : to_int32 n ≡ pos n = ground arith in
    rw (fits, norm_start-low start n, norm_stop-high stop n (low start n))
      (elim (Bool-cases (leb (high stop n) (low start n))) [
        | inl empty ↦
            rw empty (take-none (high stop n - low start n) (drop (low start n) l) (ground arith))
        | inr full ↦
            let some_high : 0 < high stop n = ground arith in
            let some_there : ltb (n + 0) 1 ≡ false = ground (arith, high-le stop n) in
            rw (full, some_there, norm_stop-part stop n some_high) refl
      ])

-- On a list of fewer than 2 ^ 31 elements, the index arithmetic of LRANGE returns exactly the
-- elements at the positions between the two bounds, each counted from the front, or from the end
-- where it is negative.
pub slice-select {ℓ} :
    {A : Type ℓ} (start stop : ℤ) (l : List A)
    → length l < 2 ^ 31
    → slice start stop l ≡ select (between start stop (length l)) 0 l
slice-select start stop l h =
    let n = length l in
    let window =
      select-window (between start stop n) (low start n) (high stop n) 0 l
        (λ q _ b. between-window start stop n q (omega arith)) in
    let from_zero : max (low start n) 0 ≡ low start n = omega arith in
    let all : low start n - 0 ≡ low start n = omega arith in
    slice-window start stop l h ∙ sym (rw (from_zero, all) at window)
