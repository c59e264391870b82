-- ===== src/Rdb/Images.antt =====
-- `LoadRdb` of src/persistence/rdb.cpp on the image that `SaveRdb` makes.
use redis_cpp.Base.{
  ℕ, ◌+◌, ◌-◌, ◌*◌, ◌%◌, ◌^◌, ◌≤◌, ◌<◌, ◌≡◌, refl, ◌∙◌, Bool, true, false, none, some, List, [],
  ◌∷◌, ◌++◌, arith, ltb, ◌==◌, if◌then◌else◌, length, take-append, drop-append, length-append,
  append-nil, str_eq, str_eq_refl, Bytes, All,
}
use Prim.Native.Nat.{bit_xor}
use redis_cpp.HashTable.{fnv1a}
use redis_cpp.Store.Snapshot.{SnapshotEntry}
use redis_cpp.Wire.{
  Reader, ◌>>=◌, ◌>>◌, check, write_u32, write_u64, read_bytes, read_u32, read_u64, le_value,
}
use redis_cpp.Rdb.{
  magic, format_version, fnv1a64, write_entries, payload, image, read_entries, read_payload,
  parse_rdb,
}
use redis_cpp.Wire.RoundTrip.{
  Reads, bind-Reads, read_bytes-Reads, length-write_le, read_u32-Reads, read_u64-Reads,
  le_value-write_u64,
}
use redis_cpp.Rdb.Entries.{Writable, filed_all, read_entries-Reads}

check-Reads :
    {A : Type 0} (b : Bool) (m : Reader A) (xs : Bytes) (a : A)
    → b ≡ true
    → Reads m xs a
    → Reads (check b >> m) xs a
check-Reads b m xs a e h rest = rw (◌>>◌, e, h rest) refl

read_payload-Reads :
    (wall : ℕ) (es : List SnapshotEntry)
    → All Writable es
    → length es < 2 ^ 64
    → Reads (read_payload wall) (payload es) (filed_all wall es)
unfolding read_payload payload
read_payload-Reads wall es h few =
    let body = write_u64 (length es) ++ write_entries es in
    bind-Reads (read_bytes 4)
      (λ m. do
        check (str_eq m magic)
        version ← read_u32
        check (version == format_version)
        count ← read_u64
        read_entries count wall)
      magic (write_u32 format_version ++ body) magic (filed_all wall es) (read_bytes-Reads magic)
      (check-Reads (str_eq magic magic) _ (write_u32 format_version ++ body) (filed_all wall es)
        (str_eq_refl magic)
        (bind-Reads read_u32
          (λ version. do
            check (version == format_version)
            count ← read_u64
            read_entries count wall)
          (write_u32 format_version) body format_version (filed_all wall es)
          (read_u32-Reads format_version (omega arith))
          (bind-Reads read_u64 (λ count. read_entries count wall) (write_u64 (length es))
            (write_entries es) (length es) (filed_all wall es) (read_u64-Reads (length es) few)
            (read_entries-Reads wall es h))))

fnv1a-lt : (h : ℕ) (bytes : Bytes) → h < 2 ^ 64 → fnv1a h bytes < 2 ^ 64
unfolding fnv1a
fnv1a-lt h [] small = small
fnv1a-lt h (c ∷ bytes) small = fnv1a-lt (bit_xor h c * 1099511628211 % 2 ^ 64) bytes (omega arith)

pub length-payload : (es : List SnapshotEntry) → 16 ≤ length (payload es)
unfolding payload
length-payload es =
    let body = write_u64 (length es) ++ write_entries es in
    omega (
      arith,
      length-append magic (write_u32 format_version ++ body),
      length-append (write_u32 format_version) body,
      length-append (write_u64 (length es)) (write_entries es),
      length-write_le 4 (format_version % 2 ^ 32),
      length-write_le 8 (length es % 2 ^ 64),
    )

pub fnv1a64-lt : (bytes : Bytes) → fnv1a64 bytes < 2 ^ 64
fnv1a64-lt bytes = fnv1a-lt 14695981039346656037 bytes (omega arith)

-- A file is what is before its last eight bytes, and the checksum in these.
read_u64-tail : (tail : Bytes) → length tail ≡ 8 → read_u64 tail ≡ some (le_value tail, [])
read_u64-tail tail size =
    let whole = read_bytes-Reads tail [] in
    let eight : read_bytes 8 tail ≡ some (tail, []) = rw (append-nil tail, size) at whole in
    rw (◌>>=◌, eight) refl

pub parse_rdb-tail :
    (wall : ℕ) (bytes tail : Bytes)
    → 16 ≤ length bytes
    → length tail ≡ 8
    → parse_rdb wall (bytes ++ tail)
      ≡ (if le_value tail == fnv1a64 bytes then read_payload wall bytes else none)
unfolding parse_rdb
parse_rdb-tail wall bytes tail long size =
    let all : length (bytes ++ tail) ≡ length bytes + 8 =
      omega (arith, length-append bytes tail, size) in
    let enough : ltb (length (bytes ++ tail)) 24 ≡ false = ground arith in
    let cut : length (bytes ++ tail) - 8 ≡ length bytes = omega arith in
    rw (enough, cut, take-append bytes tail, drop-append bytes tail, read_u64-tail tail size) refl

pub parse_rdb-image :
    (wall : ℕ) (es : List SnapshotEntry)
    → All Writable es
    → length es < 2 ^ 64
    → parse_rdb wall (image es) ≡ some (filed_all wall es, [])
unfolding image
parse_rdb-image wall es h few =
    let sum = fnv1a64 (payload es) in
    let stored : le_value (write_u64 sum) ≡ sum =
      le_value-write_u64 sum (fnv1a64-lt (payload es)) in
    let same : (sum == sum) ≡ true = ground arith in
    let read : read_payload wall (payload es) ≡ some (filed_all wall es, []) =
      rw (append-nil (payload es)) at (read_payload-Reads wall es h few []) in
    parse_rdb-tail wall (payload es) (write_u64 sum) (length-payload es)
      (length-write_le 8 (sum % 2 ^ 64))
    ∙ rw (stored, same, read) refl
