-- ===== src/Wire/RoundTrip.antt =====
-- `ByteReader` of src/persistence/rdb.cpp reads back what `ByteWriter` writes.
use mathlib.Core.List.{append_assoc}
use native.Mathlib.Nat.{pow-suc, mod-eq_of_lt}
use redis_cpp.Base.{
  ℕ, zero, suc, ◌/◌, ◌^◌, ◌<◌, ◌≡◌, refl, ap, true, some, [], ◌∷◌, ◌++◌, arith, leb, length,
  take-append, drop-append, length-append, Bytes,
}
use redis_cpp.Base.Int.{ℤ, pos, negsuc, to_int64}
use redis_cpp.Wire.{
  Reader, ◌>>=◌, give, write_le, write_u32, write_u64, write_i64, write_string, to_uint64,
  read_bytes, le_value, read_le, read_u8, read_u32, read_u64, read_i64, read_string,
}

-- Whatever is behind `bytes`, the reader takes these and no more, and returns `a`.
abbrev pub Reads : {A : Type 0} → Reader A → Bytes → A → Type 0
Reads m bytes a = (rest : Bytes) → m (bytes ++ rest) ≡ some (a, rest)

pub give-Reads : {A : Type 0} (a : A) → Reads (give a) [] a
give-Reads a rest = refl

pub bind-Reads :
    {A B : Type 0} (m : Reader A) (f : A → Reader B) (xs ys : Bytes) (a : A) (b : B)
    → Reads m xs a
    → Reads (f a) ys b
    → Reads (m >>= f) (xs ++ ys) b
bind-Reads m f xs ys a b h k rest = rw (append_assoc xs ys rest, ◌>>=◌, h (ys ++ rest), k rest) refl

pub then-Reads :
    {A B : Type 0} (m : Reader A) (f : A → B) (xs : Bytes) (a : A)
    → Reads m xs a
    → Reads (m >>= (λ x. give (f x))) xs (f a)
then-Reads m f xs a h rest = rw (◌>>=◌, h rest) refl

pub read_bytes-Reads : (bytes : Bytes) → Reads (read_bytes (length bytes)) bytes bytes
unfolding read_bytes
read_bytes-Reads bytes rest =
    let enough : leb (length bytes) (length (bytes ++ rest)) ≡ true =
      ground (arith, length-append bytes rest) in
    rw (enough, take-append bytes rest, drop-append bytes rest) refl

pub length-write_le : (n v : ℕ) → length (write_le n v) ≡ n
unfolding write_le
length-write_le zero v = refl
length-write_le (suc n) v = ap suc (length-write_le n (v / 256))

le_value-write_le : (n v : ℕ) → v < 256 ^ n → le_value (write_le n v) ≡ v
unfolding write_le le_value
le_value-write_le zero v h = omega arith
le_value-write_le (suc n) v h =
    let high : v / 256 < 256 ^ n = omega (arith, pow-suc 256 n) in
    rw (le_value-write_le n (v / 256) high) (omega arith)

pub le_value-write_u64 : (v : ℕ) → v < 2 ^ 64 → le_value (write_u64 v) ≡ v
le_value-write_u64 v h = rw (mod-eq_of_lt h) (le_value-write_le 8 v h)

read_le-Reads : (n v : ℕ) → v < 256 ^ n → Reads (read_le n) (write_le n v) v
read_le-Reads n v h =
    rw (length-write_le n v, le_value-write_le n v h) at
      (then-Reads (read_bytes (length (write_le n v))) le_value (write_le n v) (write_le n v)
        (read_bytes-Reads (write_le n v)))

pub read_u8-Reads : (v : ℕ) → v < 256 → Reads read_u8 (v ∷ []) v
unfolding write_le
read_u8-Reads v h = rw (mod-eq_of_lt h) at (read_le-Reads 1 v h)

pub read_u32-Reads : (v : ℕ) → v < 2 ^ 32 → Reads read_u32 (write_u32 v) v
read_u32-Reads v h = rw (mod-eq_of_lt h) (read_le-Reads 4 v h)

pub read_u64-Reads : (v : ℕ) → v < 2 ^ 64 → Reads read_u64 (write_u64 v) v
read_u64-Reads v h = rw (mod-eq_of_lt h) (read_le-Reads 8 v h)

abbrev pub IsInt64 : ℤ → Type 0
IsInt64 (pos n) = n < 2 ^ 63
IsInt64 (negsuc n) = n < 2 ^ 63

to_uint64-lt : (z : ℤ) → to_uint64 z < 2 ^ 64
to_uint64-lt (pos n) = omega arith
to_uint64-lt (negsuc n) = omega arith

to_int64-to_uint64 : (z : ℤ) → IsInt64 z → to_int64 (to_uint64 z) ≡ z
to_int64-to_uint64 (pos n) h = ground arith
to_int64-to_uint64 (negsuc n) h = ground arith

pub read_i64-Reads : (z : ℤ) → IsInt64 z → Reads read_i64 (write_i64 z) z
read_i64-Reads z h = rw (to_int64-to_uint64 z h) at (
    then-Reads read_u64 to_int64 (write_i64 z) (to_uint64 z)
      (read_u64-Reads (to_uint64 z) (to_uint64-lt z)))

pub read_string-Reads : (s : Bytes) → length s < 2 ^ 32 → Reads read_string (write_string s) s
read_string-Reads s h =
    bind-Reads read_u32 read_bytes (write_u32 (length s)) s (length s) s
      (read_u32-Reads (length s) h) (read_bytes-Reads s)
