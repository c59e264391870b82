-- ===== src/Rdb/Entries.antt =====
-- The loops of `SaveRdb` and `LoadRdb` in src/persistence/rdb.cpp: an entry that is written is read
-- back, with its deadline cut to milliseconds.
use redis_cpp.Base.{
  ℕ, ◌^◌, ◌<◌, ◌≡◌, refl, Bool, false, Option, none, some, List, [], ◌∷◌, ◌++◌, arith, ◌==◌, length,
  Bytes, All,
}
use redis_cpp.Base.Int.{ℤ, pos, negsuc}
use redis_cpp.Value.{ValueType, string, list, hash}
use redis_cpp.Store.Snapshot.{SnapshotEntry}
use redis_cpp.Wire.{◌>>=◌, give, write_string, read_string, read_u8, read_u32, read_i64}
use redis_cpp.Rdb.{
  to_ms, type_byte, type_of_byte, write_deadline, write_items, write_fields, write_content,
  write_entry, write_entries, expiry, deadline_if, read_deadline, read_items, read_fields, blank,
  read_content, read_snapshot_entry, push_entry, read_entries,
}
use redis_cpp.Wire.RoundTrip.{
  Reads, give-Reads, bind-Reads, then-Reads, IsInt64, read_u8-Reads, read_u32-Reads, read_i64-Reads,
  read_string-Reads,
}

-- What the file format can hold: lengths are written in 32 bits.
abbrev pub IsShort : Bytes → Type 0
IsShort s = length s < 2 ^ 32

abbrev pub ContentFits : ValueType → SnapshotEntry → Type 0
ContentFits list e = (length e.list_value < 2 ^ 32) × All IsShort e.list_value
ContentFits hash e =
    (length e.hash_value < 2 ^ 32)
    × All (λ (f : Bytes × Bytes). IsShort f.0 × IsShort f.1) e.hash_value
ContentFits string e = IsShort e.str_value

abbrev pub DeadlineFits : Option ℤ → Type 0
DeadlineFits none = Unit
DeadlineFits (some t) = IsInt64 t

pub record Writable (e : SnapshotEntry) : Type 0 where
  pub key : IsShort e.key
  pub deadline : DeadlineFits e.expires_at_wall
  pub content : ContentFits e.type e

-- What `LoadRdb` has of an entry at the instant `wall`.
abbrev pub filed_deadline : ℕ → Option ℤ → Bool × Option ℤ
filed_deadline wall none = (false, none)
filed_deadline wall (some t) = expiry wall (to_ms t)

abbrev pub filed_content : ValueType → SnapshotEntry → SnapshotEntry → SnapshotEntry
filed_content list e b = record b { list_value = e.list_value }
filed_content hash e b = record b { hash_value = e.hash_value }
filed_content string e b = record b { str_value = e.str_value }

abbrev pub filed : ℕ → SnapshotEntry → Bool × SnapshotEntry
filed wall e =
    let ttl = filed_deadline wall e.expires_at_wall in
    (ttl.0, filed_content e.type e (blank e.key e.type ttl.1))

abbrev pub filed_all : ℕ → List SnapshotEntry → List SnapshotEntry
filed_all wall [] = []
filed_all wall (e ∷ es) = push_entry (filed wall e) (filed_all wall es)

to_ms-IsInt64 : (t : ℤ) → IsInt64 t → IsInt64 (to_ms t)
to_ms-IsInt64 (pos n) h = omega arith
to_ms-IsInt64 (negsuc n) h = ground arith

read_deadline-Reads :
    (wall : ℕ) (t : Option ℤ)
    → DeadlineFits t
    → Reads (read_deadline wall) (write_deadline t) (filed_deadline wall t)
unfolding read_deadline write_deadline
read_deadline-Reads wall none h =
    bind-Reads read_u8 (λ b. deadline_if wall (b == 0)) (0 ∷ []) [] 0 (false, none)
      (read_u8-Reads 0 (omega arith)) (give-Reads (false, none))
read_deadline-Reads wall (some t) h =
    bind-Reads read_u8 (λ b. deadline_if wall (b == 0)) (1 ∷ []) _ 1 (expiry wall (to_ms t))
      (read_u8-Reads 1 (omega arith))
      (then-Reads read_i64 (expiry wall) _ (to_ms t) (read_i64-Reads (to_ms t) (to_ms-IsInt64 t h)))

read_items-Reads :
    (items : List Bytes)
    → All IsShort items
    → Reads (read_items (length items)) (write_items items) items
unfolding read_items write_items
read_items-Reads [] h = give-Reads []
read_items-Reads (x ∷ xs) h =
    bind-Reads read_string _ (write_string x) (write_items xs) x (x ∷ xs) (read_string-Reads x h.0)
      (then-Reads (read_items (length xs)) (λ l. x ∷ l) (write_items xs) xs
        (read_items-Reads xs h.1))

read_fields-Reads :
    (fields : List (Bytes × Bytes))
    → All (λ (f : Bytes × Bytes). IsShort f.0 × IsShort f.1) fields
    → Reads (read_fields (length fields)) (write_fields fields) fields
unfolding read_fields write_fields
read_fields-Reads [] h = give-Reads []
read_fields-Reads ((f, v) ∷ xs) h =
    bind-Reads read_string
      (λ field. do
        value ← read_string
        rest ← read_fields (length xs)
        give ((field, value) ∷ rest))
      (write_string f) (write_string v ++ write_fields xs) f ((f, v) ∷ xs)
      (read_string-Reads f h.0.0)
      (bind-Reads read_string (λ value. do rest ← read_fields (length xs); give ((f, value) ∷ rest))
        (write_string v) (write_fields xs) v ((f, v) ∷ xs) (read_string-Reads v h.0.1)
        (then-Reads (read_fields (length xs)) (λ l. (f, v) ∷ l) (write_fields xs) xs
          (read_fields-Reads xs h.1)))

read_content-Reads :
    (ty : ValueType) (e b : SnapshotEntry)
    → ContentFits ty e
    → Reads (read_content ty b) (write_content ty e) (filed_content ty e b)
unfolding read_content write_content
read_content-Reads list e b h =
    bind-Reads read_u32 _ _ _ (length e.list_value) (filed_content list e b)
      (read_u32-Reads (length e.list_value) h.0)
      (then-Reads (read_items (length e.list_value)) _ _ e.list_value
        (read_items-Reads e.list_value h.1))
read_content-Reads hash e b h =
    bind-Reads read_u32 _ _ _ (length e.hash_value) (filed_content hash e b)
      (read_u32-Reads (length e.hash_value) h.0)
      (then-Reads (read_fields (length e.hash_value)) _ _ e.hash_value
        (read_fields-Reads e.hash_value h.1))
read_content-Reads string e b h =
    then-Reads read_string _ _ e.str_value (read_string-Reads e.str_value h)

type_byte-lt : (ty : ValueType) → type_byte ty < 256
type_byte-lt string = omega arith
type_byte-lt list = omega arith
type_byte-lt hash = omega arith

type_of_byte-type_byte : (ty : ValueType) → type_of_byte (type_byte ty) ≡ ty
type_of_byte-type_byte string = refl
type_of_byte-type_byte list = refl
type_of_byte-type_byte hash = refl

pub read_snapshot_entry-Reads :
    (wall : ℕ) (e : SnapshotEntry)
    → Writable e
    → Reads (read_snapshot_entry wall) (write_entry e) (filed wall e)
unfolding read_snapshot_entry write_entry
read_snapshot_entry-Reads wall e h =
    let ttl = filed_deadline wall e.expires_at_wall in
    let b = blank e.key e.type ttl.1 in
    let content = write_content e.type e in
    let deadline = write_deadline e.expires_at_wall in
    bind-Reads read_string
      (λ key. do
        b ← read_u8
        ttl ← read_deadline wall
        e ← read_content (type_of_byte b) (blank key (type_of_byte b) ttl.1)
        give (ttl.0, e))
      (write_string e.key) ((type_byte e.type ∷ []) ++ deadline ++ content) e.key (filed wall e)
      (read_string-Reads e.key h.key)
      (bind-Reads read_u8
        (λ b. do
          ttl ← read_deadline wall
          e ← read_content (type_of_byte b) (blank e.key (type_of_byte b) ttl.1)
          give (ttl.0, e))
        (type_byte e.type ∷ []) (deadline ++ content) (type_byte e.type) (filed wall e)
        (read_u8-Reads (type_byte e.type) (type_byte-lt e.type))
        (rw (type_of_byte-type_byte e.type) (
          bind-Reads (read_deadline wall)
            (λ ttl. do e ← read_content e.type (blank e.key e.type ttl.1); give (ttl.0, e)) deadline
            content ttl (filed wall e) (read_deadline-Reads wall e.expires_at_wall h.deadline)
            (then-Reads (read_content e.type b) (λ x. (ttl.0, x)) content (filed_content e.type e b)
              (read_content-Reads e.type e b h.content)))))

pub read_entries-Reads :
    (wall : ℕ) (es : List SnapshotEntry)
    → All Writable es
    → Reads (read_entries (length es) wall) (write_entries es) (filed_all wall es)
unfolding read_entries write_entries
read_entries-Reads wall [] h = give-Reads []
read_entries-Reads wall (e ∷ es) h =
    bind-Reads (read_snapshot_entry wall) _ (write_entry e) (write_entries es) (filed wall e)
      (filed_all wall (e ∷ es)) (read_snapshot_entry-Reads wall e h.0)
      (then-Reads (read_entries (length es) wall) (push_entry (filed wall e)) (write_entries es)
        (filed_all wall es) (read_entries-Reads wall es h.1))
