-- ===== src/Rdb/Reloading.antt =====
-- `SaveRdb` and then `LoadRdb` of src/persistence/rdb.cpp, on a store.
use redis_cpp.Base.{
  ℕ, ◌^◌, ◌≤◌, ◌<◌, ◌≡◌, refl, ◌∙◌, ap, ◌⊎◌, inl, inr, Bool, true, false, Option, none, some, List,
  [], ◌∷◌, arith, length, take, take-all, Bytes, All, Bool-cases, str_eq, if◌then◌else◌, str_eq_iff,
}
use redis_cpp.Base.Int.{ℤ}
use redis_cpp.Value.{ValueType, string, list, hash}
use redis_cpp.Store.{Store}
use redis_cpp.Store.Invariant.{IsValid, peek}
use redis_cpp.Store.View.{view}
use redis_cpp.Store.Snapshot.{SnapshotEntry, snapshot}
use redis_cpp.Store.Snapshot.Loading.{find_entry, reload, Distinct, load_snapshot-Distinct}
use redis_cpp.Store.Snapshot.Reload.{captured, find_entry-snapshot, snapshot-Distinct}
use redis_cpp.Rdb.{image, FileSystem, Files, store_image, save_rdb, blank, push_entry, load_rdb}
use redis_cpp.Rdb.Entries.{Writable, filed_content, filed_deadline, filed, filed_all}
use redis_cpp.Rdb.Images.{parse_rdb-image}

-- What `LoadRdb` has of the entry of a key, if there is one and it has not expired.
abbrev pub read_back : Bool × SnapshotEntry → Option SnapshotEntry
read_back (true, e) = none
read_back (false, e) = some e

abbrev pub filed_entry : ℕ → Option SnapshotEntry → Option SnapshotEntry
filed_entry wall none = none
filed_entry wall (some e) = read_back (filed wall e)

filed_content-key :
    (ty : ValueType) (e : SnapshotEntry) (t : Option ℤ)
    → (filed_content ty e (blank e.key ty t)).key ≡ e.key
filed_content-key string e t = refl
filed_content-key list e t = refl
filed_content-key hash e t = refl

find_entry-push :
    (q : Bytes) (r : Bool × SnapshotEntry) (es : List SnapshotEntry)
    → find_entry r.1.key es ≡ none
    → find_entry q (push_entry r es) ≡ (if str_eq r.1.key q then read_back r else find_entry q es)
unfolding find_entry
find_entry-push q (true, e) es absent = elim (Bool-cases (str_eq e.key q)) [
  | inl same ↦ rw (same, ← (str_eq_iff e.key q).0 same) absent
  | inr different ↦ rw different refl
]
find_entry-push q (false, e) es absent = refl

push-Distinct :
    (r : Bool × SnapshotEntry) (es : List SnapshotEntry)
    → find_entry r.1.key es ≡ none
    → Distinct es
    → Distinct (push_entry r es)
unfolding Distinct
push-Distinct (true, e) es absent distinct = distinct
push-Distinct (false, e) es absent distinct = (absent, distinct)

-- As long as that holds of the entries behind it, no key comes back.
absent_too :
    (wall : ℕ) (e : SnapshotEntry) (es : List SnapshotEntry)
    → find_entry e.key es ≡ none
    → find_entry e.key (filed_all wall es) ≡ filed_entry wall (find_entry e.key es)
    → find_entry (filed wall e).1.key (filed_all wall es) ≡ none
absent_too wall e es absent h =
    rw (filed_content-key e.type e (filed_deadline wall e.expires_at_wall).1) (h ∙ rw absent refl)

find_entry-filed_all :
    (wall : ℕ) (q : Bytes) (es : List SnapshotEntry)
    → Distinct es
    → find_entry q (filed_all wall es) ≡ filed_entry wall (find_entry q es)
unfolding find_entry Distinct
find_entry-filed_all wall q [] distinct = refl
find_entry-filed_all wall q (e ∷ es) distinct =
    let k = filed_content-key e.type e (filed_deadline wall e.expires_at_wall).1 in
    let none_left =
      absent_too wall e es distinct.0 (find_entry-filed_all wall e.key es distinct.1) in
    find_entry-push q (filed wall e) (filed_all wall es) none_left
    ∙ rw k (elim (Bool-cases (str_eq e.key q)) [
      | inl same ↦ rw same refl
      | inr different ↦ rw different (find_entry-filed_all wall q es distinct.1)
    ])

filed_all-Distinct :
    (wall : ℕ) (es : List SnapshotEntry) → Distinct es → Distinct (filed_all wall es)
unfolding Distinct
filed_all-Distinct wall [] distinct = tt
filed_all-Distinct wall (e ∷ es) distinct =
    push-Distinct (filed wall e) (filed_all wall es)
      (absent_too wall e es distinct.0 (find_entry-filed_all wall e.key es distinct.1))
      (filed_all-Distinct wall es distinct.1)

-- An image that is on the disk whole.
abbrev pub HasKept : FileSystem → Bytes → Type 0
HasKept disk bytes = length bytes ≤ disk.flushed

store_image-true :
    (disk : FileSystem) (bytes : Bytes) (files : Files)
    → (store_image disk bytes files).0 ≡ true
    → HasKept disk bytes
    → (store_image disk bytes files).1.file ≡ some bytes
unfolding store_image
store_image-true disk bytes files ok kept = ground (arith, ok, take-all disk.flushed bytes kept)

pub saved_whole :
    (disk : FileSystem) (now wall : ℕ) (s : Store) (files : Files)
    → HasKept disk (image (snapshot now wall s))
    → (save_rdb disk now wall s files).0 ≡ true
    → (save_rdb disk now wall s files).1.file ≡ some (image (snapshot now wall s))
unfolding save_rdb
saved_whole disk now wall s files kept ok =
    store_image-true disk (image (snapshot now wall s)) files ok kept

-- After SaveRdb of a well-formed store has returned true, with its image on the disk whole and
-- the lengths within what the format can hold, LoadRdb into any store with no memory budget
-- returns true and leaves a well-formed store in which each key holds what LoadSnapshot makes of
-- the entry that Snapshot made of the value in view, read back with its deadline cut to
-- milliseconds, and nothing if none was in view or the deadline has passed.
pub save_rdb-load_rdb :
    (disk : FileSystem) (files : Files) (now wall now' read_at wall' : ℕ) (s s' : Store) (q : Bytes)
    → IsValid s
    → s'.max_memory_bytes ≡ 0
    → All Writable (snapshot now wall s)
    → length (snapshot now wall s) < 2 ^ 64
    → HasKept disk (image (snapshot now wall s))
    → (save_rdb disk now wall s files).0 ≡ true
    → let r = load_rdb (save_rdb disk now wall s files).1.file read_at now' wall' s' in
      (r.0 ≡ true)
      × IsValid r.1
      × (peek q r.1 ≡ reload now' wall' (filed_entry read_at (captured now wall q (view now q s))))
unfolding save_rdb load_rdb
save_rdb-load_rdb disk files now wall now' read_at wall' s s' q valid unlimited writable few kept
      ok =
    let es = snapshot now wall s in
    let distinct = snapshot-Distinct now wall s valid in
    let l =
      load_snapshot-Distinct now' wall' (filed_all read_at es) s' q
        (filed_all-Distinct read_at es distinct) unlimited in
    rw (store_image-true disk (image es) files ok kept, parse_rdb-image read_at es writable few)
      (
        refl,
        l.0,
        l.1
            ∙ ap (reload now' wall') (find_entry-filed_all read_at q es distinct)
            ∙ ap (λ o. reload now' wall' (filed_entry read_at o))
                (find_entry-snapshot now wall q s valid),
      )

-- A file system that opens the temporary file, and then fails to write or to rename it.
abbrev pub IsFailing : FileSystem → Type 0
IsFailing disk = (disk.opens ≡ true) × ((disk.writes ≡ false) ⊎ (disk.renames ≡ false))

-- What a failure leaves at the temporary path.
pub data LeavesTmp (disk : FileSystem) (bytes : Bytes) (files : Files) (tmp : Option Bytes)
    : Type 0 where
  untouched : disk.opens ≡ false → tmp ≡ files.tmp → LeavesTmp disk bytes files tmp
  removed : IsFailing disk → disk.removes ≡ true → tmp ≡ none → LeavesTmp disk bytes files tmp
  stray :
      IsFailing disk
      → disk.removes ≡ false
      → tmp ≡ some (take disk.flushed bytes)
      → LeavesTmp disk bytes files tmp

abbrev pub Stores : FileSystem → Bytes → Files → Bool × Files → Type 0
Stores disk bytes files r =
    ((r.0 ≡ false) × (r.1.file ≡ files.file) × LeavesTmp disk bytes files r.1.tmp)
    ⊎ ((r.0 ≡ true) × (r.1.file ≡ some (take disk.flushed bytes)) × (r.1.tmp ≡ none))
