-- ===== src/Rdb/Corruption.antt =====
-- `LoadRdb` of src/persistence/rdb.cpp on a file with a wrong byte.
use mathlib.Core.List.{append_assoc}
use redis_cpp.Base.{
  ℕ, ◌%◌, ◌^◌, ◌≤◌, ◌≡◌, ◌≢◌, refl, sym, ◌∙◌, ap, inl, inr, false, some, List, [], ◌∷◌, ◌++◌, arith,
  ◌==◌, length, length-append, Bytes, All, All-append_right, append_cut,
}
use redis_cpp.Store.{Store}
use redis_cpp.Store.Snapshot.{SnapshotEntry}
use redis_cpp.Wire.{le_value, write_u64}
use redis_cpp.Rdb.{fnv1a64, payload, image, load_rdb}
use redis_cpp.Wire.RoundTrip.{length-write_le, le_value-write_u64}
use redis_cpp.Rdb.Images.{parse_rdb-tail, length-payload, fnv1a64-lt}
use redis_cpp.Rdb.Checksum.{IsByte, fnv1a-byte}

le_value-byte :
    (before after : Bytes) (c d : ℕ)
    → le_value (before ++ (c ∷ after)) ≡ le_value (before ++ (d ∷ after))
    → c ≡ d
unfolding le_value
le_value-byte [] after c d e = omega arith
le_value-byte (b ∷ before) after c d e = le_value-byte before after c d (omega arith)

append-cancel : (xs ys zs : Bytes) → xs ++ ys ≡ xs ++ zs → ys ≡ zs
append-cancel [] ys zs e = e
append-cancel (x ∷ xs) ys zs e = append-cancel xs ys zs (cc (e))

length-changed :
    (before after : Bytes) (c d : ℕ)
    → length (before ++ (c ∷ after)) ≡ length (before ++ (d ∷ after))
length-changed before after c d =
    omega (arith, length-append before (c ∷ after), length-append before (d ∷ after))

-- A file whose checksum is not that of what stands before it.
wrong_checksum :
    (wall now wall' : ℕ) (bytes tail : Bytes) (s : Store)
    → 16 ≤ length bytes
    → length tail ≡ 8
    → le_value tail ≢ fnv1a64 bytes
    → load_rdb (some (bytes ++ tail)) wall now wall' s ≡ (false, s)
unfolding load_rdb
wrong_checksum wall now wall' bytes tail s long size wrong =
    let differs : (le_value tail == fnv1a64 bytes) ≡ false = ground (arith, wrong) in
    rw (parse_rdb-tail wall bytes tail long size, differs) refl

-- If any one byte of an image is changed, LoadRdb returns false and leaves the store as it was.
pub load_rdb-changed :
    (es : List SnapshotEntry) (before after : Bytes) (c d wall now wall' : ℕ) (s : Store)
    → image es ≡ before ++ (c ∷ after)
    → All IsByte (payload es)
    → IsByte d
    → c ≢ d
    → load_rdb (some (before ++ (d ∷ after))) wall now wall' s ≡ (false, s)
unfolding image
load_rdb-changed es before after c d wall now wall' s e bytes byte differs =
    let sum = write_u64 (fnv1a64 (payload es)) in
    let long = length-payload es in
    let size : length sum ≡ 8 = length-write_le 8 (fnv1a64 (payload es) % 2 ^ 64) in
    let stored : le_value sum ≡ fnv1a64 (payload es) =
      le_value-write_u64 (fnv1a64 (payload es)) (fnv1a64-lt (payload es)) in
    elim (append_cut (payload es) sum before (c ∷ after) e) [
      | inl (u, start, rest) ↦
          (let tail = u ++ (d ∷ after) in
            let same : before ++ (d ∷ after) ≡ payload es ++ tail =
              ap (λ l. l ++ (d ∷ after)) start ∙ append_assoc (payload es) u (d ∷ after) in
            let eight : length tail ≡ 8 =
              length-changed u after d c ∙ ap length (sym rest) ∙ size in
            rw same (
              wrong_checksum wall now wall' (payload es) tail s long eight (λ e'.
                differs (le_value-byte u after c d (ap le_value (sym rest) ∙ stored ∙ sym e')))))
      | inr (x, u, start, rest) ↦
          (let first : x ≡ c = cc (rest) in
            let behind : after ≡ u ++ sum = cc (rest) in
            let content = before ++ (d ∷ u) in
            let old : payload es ≡ before ++ (c ∷ u) = rw first at start in
            let same : before ++ (d ∷ after) ≡ content ++ sum =
              ap (λ l. before ++ (d ∷ l)) behind ∙ sym (append_assoc before (d ∷ u) sum) in
            let here : All IsByte (c ∷ u) =
              All-append_right IsByte before (c ∷ u) (rw old at bytes) in
            rw same (
              wrong_checksum wall now wall' content sum s
                (omega (arith, length-changed before u c d, ap length old, long)) size
                (λ e'. differs (
                  fnv1a-byte before u c d 14695981039346656037 here.1 here.0 byte (omega arith)
                    (ap fnv1a64 (sym old) ∙ sym stored ∙ e')))))
    ]
