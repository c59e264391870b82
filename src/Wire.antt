-- ===== src/Wire.antt =====
-- The byte format of src/persistence/rdb.cpp: `ByteWriter` and `ByteReader`.
pub mod RoundTrip
use redis_cpp.Base.{
  ℕ, zero, suc, ◌+◌, ◌-◌, ◌*◌, ◌/◌, ◌%◌, ◌^◌, Bool, true, false, Option, none, some, List, [], ◌∷◌,
  ◌++◌, if◌then◌else◌, ltb, leb, ◌==◌, length, take, drop, codes, Bytes, str_eq, not,
}
use redis_cpp.Base.Int.{ℤ, pos, negsuc, to_int64}

-- `ByteWriter`. The loop of `WriteU32` and `WriteU64`: the lowest byte first.
unfoldable pub write_le : ℕ → ℕ → Bytes
write_le zero v = []
write_le (suc n) v = (v % 256) ∷ write_le n (v / 256)

abbrev pub write_u32 : ℕ → Bytes
write_u32 v = write_le 4 (v % 2 ^ 32)

abbrev pub write_u64 : ℕ → Bytes
write_u64 v = write_le 8 (v % 2 ^ 64)

-- `static_cast<std::uint64_t>`.
abbrev pub to_uint64 : ℤ → ℕ
to_uint64 (pos n) = n % 2 ^ 64
to_uint64 (negsuc n) = 2 ^ 64 - 1 - n % 2 ^ 64

abbrev pub write_i64 : ℤ → Bytes
write_i64 v = write_u64 (to_uint64 v)

abbrev pub write_string : Bytes → Bytes
write_string s = write_u32 (length s) ++ s

-- `ByteReader`: what is read, and the bytes behind the cursor; none where it returns false.
abbrev pub Reader : Type 0 → Type 0
Reader A = Bytes → Option (A × Bytes)

infixl 5 ◌>>=◌ ◌>>◌
abbrev pub ◌>>=◌ : {A B : Type 0} → Reader A → (A → Reader B) → Reader B
◌>>=◌ m f r = elim (m r) [ none ↦ none | some (a, rest) ↦ f a rest ]

abbrev pub ◌>>◌ : {A B : Type 0} → Reader A → Reader B → Reader B
◌>>◌ m f r = elim (m r) [ none ↦ none | some (a, rest) ↦ f rest ]

abbrev pub give : {A : Type 0} → A → Reader A
give a r = some (a, r)

abbrev pub check : Bool → Reader (Unit {0})
check true r = some (tt, r)
check false r = none

unfoldable pub read_bytes : ℕ → Reader Bytes
read_bytes n r = if leb n (length r) then some (take n r, drop n r) else none

unfoldable pub le_value : Bytes → ℕ
le_value [] = 0
le_value (b ∷ bs) = b + 256 * le_value bs

abbrev pub read_le : ℕ → Reader ℕ
read_le n = do bytes ← read_bytes n; give (le_value bytes)

abbrev pub read_u8 : Reader ℕ
read_u8 = read_le 1

abbrev pub read_u32 : Reader ℕ
read_u32 = read_le 4

abbrev pub read_u64 : Reader ℕ
read_u64 = read_le 8

abbrev pub read_i64 : Reader ℤ
read_i64 = do v ← read_u64; give (to_int64 v)

abbrev pub read_string : Reader Bytes
read_string = do len ← read_u32; read_bytes len
