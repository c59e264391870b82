-- ===== src/Rdb.antt =====
-- src/persistence/rdb.h and src/persistence/rdb.cpp: a snapshot of the store in one file. The file
-- system is a parameter: whether the temporary file opens, whether the stream is good after the
-- write, how many bytes are on the disk once it is closed, and whether the rename succeeds.
pub mod Entries
pub mod Images
pub mod Checksum
pub mod Corruption
pub mod Reloading
pub mod Content
use redis_cpp.Base.{
  ℕ, zero, suc, ◌+◌, ◌-◌, ◌*◌, ◌/◌, ◌%◌, ◌^◌, Bool, true, false, Option, none, some, List, [], ◌∷◌,
  ◌++◌, if◌then◌else◌, ltb, leb, ◌==◌, length, take, drop, codes, Bytes, str_eq, not,
}
use redis_cpp.Base.Int.{ℤ, pos, negsuc, sub_ℕ, to_int64}
use redis_cpp.Wire.{
  write_le, write_u32, write_u64, to_uint64, write_i64, write_string, Reader, ◌>>=◌, ◌>>◌, give,
  check, read_bytes, le_value, read_le, read_u8, read_u32, read_u64, read_i64, read_string,
}
use redis_cpp.HashTable.{fnv1a}
use redis_cpp.Value.{ValueType, string, list, hash}
use redis_cpp.Store.{Store}
use redis_cpp.Store.Snapshot.{SnapshotEntry, snapshot, is_past, load_snapshot}

-- `kMagic` and `kFormatVersion`.
abbrev pub magic : Bytes
magic = codes "GRDB"

abbrev pub format_version : ℕ
format_version = 2

abbrev pub fnv1a64 : Bytes → ℕ
fnv1a64 bytes = fnv1a 14695981039346656037 bytes

-- `duration_cast<milliseconds>` of a count of nanoseconds cuts towards zero.
abbrev pub to_ms : ℤ → ℤ
to_ms (pos n) = pos (n / 1000000)
to_ms (negsuc n) = sub_ℕ 0 (suc n / 1000000)

-- `system_clock::time_point(milliseconds(ms))`.
abbrev pub of_ms : ℤ → ℤ
of_ms (pos ms) = to_int64 (ms * 1000000)
of_ms (negsuc ms) = to_int64 (2 ^ 64 - suc ms * 1000000 % 2 ^ 64)

abbrev pub type_byte : ValueType → ℕ
type_byte string = 0
type_byte list = 1
type_byte hash = 2

abbrev pub type_of_byte : ℕ → ValueType
type_of_byte b = if b == 1 then list else if b == 2 then hash else string

-- The body of the loop of `SaveRdb`.
unfoldable pub write_deadline : Option ℤ → Bytes
write_deadline none = 0 ∷ []
write_deadline (some t) = 1 ∷ write_i64 (to_ms t)

unfoldable pub write_items : List Bytes → Bytes
write_items [] = []
write_items (elem ∷ elems) = write_string elem ++ write_items elems

unfoldable pub write_fields : List (Bytes × Bytes) → Bytes
write_fields [] = []
write_fields ((field, value) ∷ fields) =
    write_string field ++ (write_string value ++ write_fields fields)

unfoldable pub write_content : ValueType → SnapshotEntry → Bytes
write_content list e = write_u32 (length e.list_value) ++ write_items e.list_value
write_content hash e = write_u32 (length e.hash_value) ++ write_fields e.hash_value
write_content string e = write_string e.str_value

unfoldable pub write_entry : SnapshotEntry → Bytes
write_entry e =
    write_string e.key
    ++ (type_byte e.type ∷ (write_deadline e.expires_at_wall ++ write_content e.type e))

unfoldable pub write_entries : List SnapshotEntry → Bytes
write_entries [] = []
write_entries (e ∷ es) = write_entry e ++ write_entries es

unfoldable pub payload : List SnapshotEntry → Bytes
payload es = magic ++ (write_u32 format_version ++ (write_u64 (length es) ++ write_entries es))

unfoldable pub image : List SnapshotEntry → Bytes
image es = payload es ++ write_u64 (fnv1a64 (payload es))

pub record FileSystem : Type 0 where
  pub opens : Bool
  pub writes : Bool
  pub flushed : ℕ
  pub renames : Bool
  pub removes : Bool

-- The file at `path`, and the one at `path` + ".tmp".
pub record Files : Type 0 where
  pub file : Option Bytes
  pub tmp : Option Bytes

-- `std::remove` of the temporary file, whose result is ignored.
abbrev pub left_behind : FileSystem → Bytes → Option Bytes
left_behind disk bytes = if disk.removes then none else some (take disk.flushed bytes)

-- What `SaveRdb` does with the bytes of an image, from the opening of the stream on.
unfoldable pub store_image : FileSystem → Bytes → Files → Bool × Files
store_image disk bytes files =
    if not disk.opens
    then (false, files)
    else if not disk.writes
    then (false, record files { tmp = left_behind disk bytes })
    else if not disk.renames
    then (false, record files { tmp = left_behind disk bytes })
    else (true, record { file = some (take disk.flushed bytes); tmp = none })

unfoldable pub save_rdb : FileSystem → ℕ → ℕ → Store → Files → Bool × Files
save_rdb disk now wall s files = store_image disk (image (snapshot now wall s)) files

-- The body of the loop of `LoadRdb`: whether the entry has expired, and its deadline otherwise.
abbrev pub expiry : ℕ → ℤ → Bool × Option ℤ
expiry wall ms = if is_past wall (some (of_ms ms)) then (true, none) else (false, some (of_ms ms))

abbrev pub deadline_if : ℕ → Bool → Reader (Bool × Option ℤ)
deadline_if wall true = give (false, none)
deadline_if wall false = do ms ← read_i64; give (expiry wall ms)

unfoldable pub read_deadline : ℕ → Reader (Bool × Option ℤ)
read_deadline wall = do has_ttl ← read_u8; deadline_if wall (has_ttl == 0)

unfoldable pub read_items : ℕ → Reader (List Bytes)
read_items zero = give []
read_items (suc n) = do elem ← read_string; elems ← read_items n; give (elem ∷ elems)

unfoldable pub read_fields : ℕ → Reader (List (Bytes × Bytes))
read_fields zero = give []
read_fields (suc n) = do
  field ← read_string
  value ← read_string
  fields ← read_fields n
  give ((field, value) ∷ fields)

-- The entry of a key, with no more of it set.
abbrev pub blank : Bytes → ValueType → Option ℤ → SnapshotEntry
blank key type t = record {
  key = key;
  type = type;
  str_value = [];
  list_value = [];
  hash_value = [];
  expires_at_wall = t;
}

unfoldable pub read_content : ValueType → SnapshotEntry → Reader SnapshotEntry
read_content list e = do n ← read_u32; elems ← read_items n; give (record e { list_value = elems })
read_content hash e = do
  n ← read_u32
  fields ← read_fields n
  give (record e { hash_value = fields })
read_content string e = do s ← read_string; give (record e { str_value = s })

unfoldable pub read_snapshot_entry : ℕ → Reader (Bool × SnapshotEntry)
read_snapshot_entry wall = do
  key ← read_string
  b ← read_u8
  ttl ← read_deadline wall
  e ← read_content (type_of_byte b) (blank key (type_of_byte b) ttl.1)
  give (ttl.0, e)

abbrev pub push_entry : Bool × SnapshotEntry → List SnapshotEntry → List SnapshotEntry
push_entry (true, e) es = es
push_entry (false, e) es = e ∷ es

unfoldable pub read_entries : ℕ → ℕ → Reader (List SnapshotEntry)
read_entries zero wall = give []
read_entries (suc n) wall = do
  e ← read_snapshot_entry wall
  es ← read_entries n wall
  give (push_entry e es)

unfoldable pub read_payload : ℕ → Reader (List SnapshotEntry)
read_payload wall = do
  m ← read_bytes 4
  check (str_eq m magic)
  version ← read_u32
  check (version == format_version)
  count ← read_u64
  read_entries count wall

-- `LoadRdb`, before anything is applied to the store: the entries of a file.
abbrev pub checked : ℕ → Bytes → Option (ℕ × Bytes) → Option (List SnapshotEntry × Bytes)
checked wall bytes none = none
checked wall bytes (some (stored, rest)) =
    if stored == fnv1a64 bytes then read_payload wall bytes else none

unfoldable pub parse_rdb : ℕ → Bytes → Option (List SnapshotEntry × Bytes)
parse_rdb wall buf =
    if ltb (length buf) 24
    then none
    else checked wall (take (length buf - 8) buf) (read_u64 (drop (length buf - 8) buf))

abbrev pub applied : ℕ → ℕ → Option (List SnapshotEntry × Bytes) → Store → Bool × Store
applied now wall none s = (false, s)
applied now wall (some (es, rest)) s = (true, load_snapshot now wall es s)

-- `LoadRdb` at the instant `wall`, and `LoadSnapshot` at `now` and `wall'` of the two clocks.
unfoldable pub load_rdb : Option Bytes → ℕ → ℕ → ℕ → Store → Bool × Store
load_rdb none wall now wall' s = (false, s)
load_rdb (some buf) wall now wall' s = applied now wall' (parse_rdb wall buf) s
