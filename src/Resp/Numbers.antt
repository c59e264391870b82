-- ===== src/Resp/Numbers.antt =====
-- Decimal numbers as the sources print and parse them: `std::to_string`, and `std::from_chars` on
-- `std::int64_t` as `ParseInt64` and `ParseInt64Arg` call it, with the whole text to be used up.
use redis_cpp.Base.{
  ℕ, zero, suc, ◌+◌, ◌-◌, ◌*◌, ◌/◌, ◌%◌, ◌^◌, ◌≤◌, ◌<◌, ◌≡◌, refl, ◌∙◌, inl, inr, Bool, ◌&&◌,
  Option, none, some, [], ◌∷◌, ◌++◌, arith, if◌then◌else◌, ltb, leb, ◌==◌, Bool-cases, Bytes, All,
  All-append,
}
use redis_cpp.Base.Int.{ℤ, pos, negsuc}

-- The digits of a number, the last one appended; `fuel` is at least the number.
unfoldable pub decimal_fuel : ℕ → ℕ → Bytes
decimal_fuel zero n = (48 + n) ∷ []
decimal_fuel (suc fuel) n =
    let rest = decimal_fuel fuel (n / 10) ++ (48 + n % 10) ∷ [] in
    if ltb n 10 then (48 + n) ∷ [] else rest

unfoldable pub decimal : ℕ → Bytes
decimal n = decimal_fuel n n

unfoldable pub to_string : ℤ → Bytes
to_string (pos n) = decimal n
to_string (negsuc n) = b'-' ∷ decimal (suc n)

abbrev pub is_digit : ℕ → Bool
is_digit c = leb 48 c && leb c 57

-- Digits up to the end of the text, on from a value.
unfoldable pub parse_digits : ℕ → Bytes → Option ℕ
parse_digits acc [] = some acc
parse_digits acc (c ∷ cs) = if is_digit c then parse_digits (acc * 10 + (c - 48)) cs else none

-- At least one digit.
unfoldable pub parse_number : Bytes → Option ℕ
parse_number [] = none
parse_number (c ∷ cs) = parse_digits 0 (c ∷ cs)

abbrev pub in_range : Option ℕ → Option ℤ
in_range none = none
in_range (some n) = if ltb n (2 ^ 63) then some (pos n) else none

abbrev pub in_range_negative : Option ℕ → Option ℤ
in_range_negative none = none
in_range_negative (some zero) = some (pos 0)
in_range_negative (some (suc n)) = if ltb n (2 ^ 63) then some (negsuc n) else none

unfoldable pub parse_int64 : Bytes → Option ℤ
parse_int64 [] = none
parse_int64 (c ∷ cs) =
    if c == b'-' then in_range_negative (parse_number cs) else in_range (parse_number (c ∷ cs))

parse_digits-append :
    (xs ys : Bytes) (acc n : ℕ)
    → parse_digits acc xs ≡ some n
    → parse_digits acc (xs ++ ys) ≡ parse_digits n ys
unfolding parse_digits
parse_digits-append [] ys acc n h = ground arith
parse_digits-append (x ∷ xs) ys acc n h =
    ground (arith, parse_digits-append xs ys (acc * 10 + (x - 48)) n)

parse_digits-decimal : (fuel n : ℕ) → n ≤ fuel → parse_digits 0 (decimal_fuel fuel n) ≡ some n
unfolding decimal_fuel parse_digits
parse_digits-decimal zero n h = ground arith
parse_digits-decimal (suc fuel) n h = elim (Bool-cases (ltb n 10)) [
  | inl small ↦ rw small (ground arith)
  | inr large ↦ rw large (
      parse_digits-append (decimal_fuel fuel (n / 10)) _ 0 (n / 10)
        (parse_digits-decimal fuel (n / 10) (ground arith))
      ∙ ground arith)
]

-- A text that is a digit followed by digits.
abbrev pub IsDigits : Bytes → Type 0
IsDigits [] = ⊥
IsDigits (c ∷ cs) = All (λ d. (48 ≤ d) × (d ≤ 57)) (c ∷ cs)

IsDigits-append : (xs : Bytes) (d : ℕ) → IsDigits xs → 48 ≤ d → d ≤ 57 → IsDigits (xs ++ d ∷ [])
IsDigits-append [] d h lo hi = absurd h
IsDigits-append (c ∷ cs) d h lo hi = (h.0, All-append _ cs (d ∷ []) h.1 ((lo, hi), tt))

decimal_fuel-IsDigits : (fuel n : ℕ) → n ≤ fuel → IsDigits (decimal_fuel fuel n)
unfolding decimal_fuel
decimal_fuel-IsDigits zero n h = omega arith
decimal_fuel-IsDigits (suc fuel) n h = elim (Bool-cases (ltb n 10)) [
  | inl small ↦ rw small (ground arith)
  | inr large ↦ rw large (
      IsDigits-append (decimal_fuel fuel (n / 10)) (48 + n % 10)
        (decimal_fuel-IsDigits fuel (n / 10) (ground arith)) (omega arith) (omega arith))
]

-- A printed number starts with a digit and goes on with digits.
pub decimal-IsDigits : (n : ℕ) → IsDigits (decimal n)
unfolding decimal
decimal-IsDigits n = decimal_fuel-IsDigits n n (omega arith)

parse_digits-lem : (n : ℕ) → parse_digits 0 (decimal n) ≡ some n
unfolding decimal
parse_digits-lem n = parse_digits-decimal n n (omega arith)

parse_number-IsDigits : (xs : Bytes) → IsDigits xs → parse_number xs ≡ parse_digits 0 xs
unfolding parse_number
parse_number-IsDigits [] h = absurd h
parse_number-IsDigits (c ∷ cs) h = refl

parse_number-decimal : (n : ℕ) → parse_number (decimal n) ≡ some n
parse_number-decimal n = parse_number-IsDigits (decimal n) (decimal-IsDigits n) ∙ parse_digits-lem n

parse_int64-IsDigits : (xs : Bytes) → IsDigits xs → parse_int64 xs ≡ in_range (parse_number xs)
unfolding parse_int64
parse_int64-IsDigits [] h = absurd h
parse_int64-IsDigits (c ∷ cs) h = ground arith

-- The integers that 64 bits hold.
abbrev pub FitsInt64 : ℤ → Type 0
FitsInt64 (pos n) = n < 2 ^ 63
FitsInt64 (negsuc n) = n < 2 ^ 63

-- Parsing reads back the decimal text of every 64-bit integer.
pub parse_int64-to_string : (z : ℤ) → FitsInt64 z → parse_int64 (to_string z) ≡ some z
unfolding to_string parse_int64
parse_int64-to_string (pos n) h =
    rw (parse_int64-IsDigits (decimal n) (decimal-IsDigits n), parse_number-decimal n)
      (ground arith)
parse_int64-to_string (negsuc n) h = rw (parse_number-decimal (suc n)) (ground arith)

in_range-FitsInt64 : (o : Option ℕ) (z : ℤ) → in_range o ≡ some z → FitsInt64 z
in_range-FitsInt64 none z h = absurd (cc)
in_range-FitsInt64 (some n) (pos m) h = ground arith
in_range-FitsInt64 (some n) (negsuc m) h = ground arith

in_range_negative-FitsInt64 : (o : Option ℕ) (z : ℤ) → in_range_negative o ≡ some z → FitsInt64 z
in_range_negative-FitsInt64 none z h = absurd (cc)
in_range_negative-FitsInt64 (some zero) z h = ground arith
in_range_negative-FitsInt64 (some (suc n)) (pos m) h = ground arith
in_range_negative-FitsInt64 (some (suc n)) (negsuc m) h = ground arith

-- What parsing accepts fits 64 bits.
pub parse_int64-FitsInt64 : (xs : Bytes) (z : ℤ) → parse_int64 xs ≡ some z → FitsInt64 z
unfolding parse_int64
parse_int64-FitsInt64 [] z h = absurd (cc)
parse_int64-FitsInt64 (c ∷ cs) z h = elim (Bool-cases (c == b'-')) [
  | inl minus ↦ in_range_negative-FitsInt64 (parse_number cs) z (rw minus at h)
  | inr digit ↦ in_range-FitsInt64 (parse_number (c ∷ cs)) z (rw digit at h)
]
