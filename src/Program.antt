-- ===== src/Program.antt =====
-- src/main.cpp: the flags, what is loaded at the start, and what is saved at the end. `atoi` and
-- `atoll` of the C library are parameters.
pub mod Flags
pub mod Restart
pub mod Recovery
pub mod Serving
use redis_cpp.Base.{
  ℕ, zero, suc, Bool, true, false, Option, none, some, List, [], ◌∷◌, codes, Bytes, str_eq,
  if◌then◌else◌, ◌==◌,
}
use redis_cpp.Base.Int.{ℤ, pos}
use redis_cpp.Store.{Store, new_store, set_max_memory}
use redis_cpp.Aof.{load_aof}
use redis_cpp.Wire.{to_uint64}
use redis_cpp.Rdb.{FileSystem, Files, save_rdb, load_rdb}

pub record Options : Type 0 where
  pub port : ℤ
  pub rdb_path : Bytes
  pub aof_path : Bytes
  pub max_memory_bytes : ℕ

abbrev pub default_options : Options
default_options = record {
  port = pos 6380;
  rdb_path = codes "dump.grdb";
  aof_path = [];
  max_memory_bytes = 0;
}

-- What an argument does to the options, with the argument behind it; none for an unknown one.
unfoldable pub apply_flag : (Bytes → ℤ) → (Bytes → ℤ) → Bytes → Bytes → Options → Option Options
apply_flag atoi atoll arg value o =
    if str_eq arg (codes "--port")
    then some (record o { port = atoi value })
    else if str_eq arg (codes "--rdb")
    then some (record o { rdb_path = value })
    else if str_eq arg (codes "--aof")
    then some (record o { aof_path = value })
    else if str_eq arg (codes "--maxmemory")
    then some (record o { max_memory_bytes = to_uint64 (atoll value) })
    else none

-- The loop of `ParseArgs`: a flag that is the last argument takes an empty value.
unfoldable pub parse_loop : (Bytes → ℤ) → (Bytes → ℤ) → List Bytes → Options → Options
parse_loop atoi atoll [] o = o
parse_loop atoi atoll (arg ∷ []) o = elim (apply_flag atoi atoll arg [] o) [
  | none ↦ o
  | some o' ↦ o'
]
parse_loop atoi atoll (arg ∷ value ∷ rest) o = elim (apply_flag atoi atoll arg value o) [
  | none ↦ parse_loop atoi atoll (value ∷ rest) o
  | some o' ↦ parse_loop atoi atoll rest o'
]

-- `ParseArgs`, on the arguments behind the program's name.
unfoldable pub parse_args : (Bytes → ℤ) → (Bytes → ℤ) → List Bytes → Options
parse_args atoi atoll args = parse_loop atoi atoll args default_options

-- The instants of a start: `LoadAof` reads the clock for each command, `LoadRdb` the wall clock,
-- and `LoadSnapshot` both.
pub record Clocks : Type 0 where
  pub replayed : ℕ → ℕ
  pub read_at : ℕ
  pub now : ℕ
  pub wall : ℕ

-- The store of a process, and whether it has a log (`aof_writer != nullptr`).
pub record Process : Type 0 where
  pub store : Store
  pub logging : Bool

abbrev pub budgeted : ℕ → Store → Store
budgeted zero s = s
budgeted (suc n) s = set_max_memory (suc n) s

abbrev pub load : Clocks → Bytes → Option Bytes → Bool → Option Bytes → Store → Process
load clocks [] log opens file s = record {
  store = (load_rdb file clocks.read_at clocks.now clocks.wall s).1;
  logging = false;
}
load clocks (c ∷ path) log opens file s = record {
  store = (load_aof log clocks.replayed s).1;
  logging = opens;
}

-- `main` up to the server's start: the bytes of the log and of the snapshot, if these files
-- open, and whether the log opens for appending.
unfoldable pub boot : Options → Clocks → (ℕ → ℕ → ℕ) → Option Bytes → Bool → Option Bytes → Process
boot o clocks stream log opens file =
    load clocks o.aof_path log opens file (budgeted o.max_memory_bytes (new_store stream))

-- `main` behind the join of the accept loop.
unfoldable pub shut_down : FileSystem → ℕ → ℕ → Process → Files → Files
shut_down disk now wall p files =
    if p.logging then files else (save_rdb disk now wall p.store files).1
