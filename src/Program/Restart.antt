-- ===== src/Program/Restart.antt =====
-- `main` of src/main.cpp, ended and started again.
use redis_cpp.Base.{
  ℕ, ◌^◌, ◌<◌, ◌≡◌, ◌≢◌, refl, Bool, true, false, Option, some, [], ◌∷◌, length, Bytes, All,
}
use redis_cpp.Store.{Store, new_store}
use redis_cpp.Store.Invariant.{IsValid, peek}
use redis_cpp.Store.View.{view}
use redis_cpp.Store.Snapshot.{snapshot}
use redis_cpp.Store.Snapshot.Loading.{reload}
use redis_cpp.Store.Snapshot.Reload.{captured}
use redis_cpp.Rdb.{FileSystem, Files, image, save_rdb}
use redis_cpp.Rdb.Entries.{Writable}
use redis_cpp.Rdb.Reloading.{HasKept, filed_entry, saved_whole, save_rdb-load_rdb}
use redis_cpp.Program.{Options, Clocks, Process, load, budgeted, boot, shut_down}

-- What a snapshot that ends well leaves at its path.
abbrev pub IsSaved : FileSystem → ℕ → ℕ → Store → Files → Type 0
IsSaved disk now wall s files =
    HasKept disk (image (snapshot now wall s)) × ((save_rdb disk now wall s files).0 ≡ true)

-- In RDB mode and with no memory budget, when the snapshot at the end of main of a well-formed
-- store has returned true with its image on the disk whole and the lengths within what the format
-- can hold, the next start of main has a well-formed store in which each key holds what LoadRdb
-- and LoadSnapshot make of the entry of the value in view, and nothing if none was in view or the
-- deadline has passed.
pub boot-shut_down :
    (o : Options) (clocks : Clocks) (stream : ℕ → ℕ → ℕ) (log : Option Bytes) (opens : Bool)
    (disk : FileSystem) (now wall : ℕ) (p : Process) (files : Files) (q : Bytes)
    → o.aof_path ≡ []
    → o.max_memory_bytes ≡ 0
    → p.logging ≡ false
    → IsValid p.store
    → All Writable (snapshot now wall p.store)
    → length (snapshot now wall p.store) < 2 ^ 64
    → IsSaved disk now wall p.store files
    → let s = (boot o clocks stream log opens (shut_down disk now wall p files).file).store in
      IsValid s
      × (peek q s
          ≡ reload clocks.now clocks.wall
              (filed_entry clocks.read_at (captured now wall q (view now q p.store))))
unfolding boot shut_down
boot-shut_down o clocks stream log opens disk now wall p files q rdb free plain valid writable few
      (kept, ok) =
    let (done, well, same) =
      save_rdb-load_rdb disk files now wall clocks.now clocks.read_at clocks.wall p.store
        (new_store stream) q valid refl writable few kept ok in
    rw (rdb, free, plain) (well, same)

never :
    (clocks : Clocks) (path : Bytes) (log file : Option Bytes) (s : Store)
    → (load clocks path log false file s).logging ≡ false
never clocks [] log file s = refl
never clocks (c ∷ path) log file s = refl

unread :
    (clocks : Clocks) (path : Bytes) (log file file' : Option Bytes) (s : Store)
    → path ≢ []
    → load clocks path log false file s ≡ load clocks path log false file' s
unread clocks [] log file file' s aof = absurd (aof refl)
unread clocks (c ∷ path) log file file' s aof = refl

-- With a path for the log that does not open for appending, what main starts with does not depend
-- on the snapshot file, and a snapshot at the end that returns true with its image on the disk
-- whole leaves that image at the path of the snapshot.
pub shut_down-unlogged :
    (o : Options) (clocks : Clocks) (stream : ℕ → ℕ → ℕ) (log file file' : Option Bytes)
    (disk : FileSystem) (now wall : ℕ) (s : Store) (files : Files)
    → o.aof_path ≢ []
    → IsSaved disk now wall s files
    → let p = boot o clocks stream log false file in
      (p ≡ boot o clocks stream log false file')
      × ((shut_down disk now wall (record p { store = s }) files).file
          ≡ some (image (snapshot now wall s)))
unfolding boot shut_down
shut_down-unlogged o clocks stream log file file' disk now wall s files aof (kept, ok) = (
  unread clocks o.aof_path log file file' _ aof,
  rw (never clocks o.aof_path log file (budgeted o.max_memory_bytes (new_store stream)))
      (saved_whole disk now wall s files kept ok),
)
