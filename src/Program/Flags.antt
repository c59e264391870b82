-- ===== src/Program/Flags.antt =====
-- `ParseArgs` of src/main.cpp.
use redis_cpp.Base.{◌≡◌, refl, ◌∙◌, false, none, List, [], ◌∷◌, codes, Bytes, All, str_eq}
use redis_cpp.Base.Int.{ℤ}
use redis_cpp.Wire.{to_uint64}
use redis_cpp.Program.{Options, default_options, apply_flag, parse_loop, parse_args}

-- What a user asks for, and how it is written.
pub data Setting : Type 0 where
  port rdb aof maxmemory unknown : Bytes → Setting

abbrev pub spell : List Setting → List Bytes
spell [] = []
spell (port value ∷ settings) = codes "--port" ∷ value ∷ spell settings
spell (rdb value ∷ settings) = codes "--rdb" ∷ value ∷ spell settings
spell (aof value ∷ settings) = codes "--aof" ∷ value ∷ spell settings
spell (maxmemory value ∷ settings) = codes "--maxmemory" ∷ value ∷ spell settings
spell (unknown arg ∷ settings) = arg ∷ spell settings

abbrev pub configure : (Bytes → ℤ) → (Bytes → ℤ) → List Setting → Options → Options
configure atoi atoll [] o = o
configure atoi atoll (port value ∷ settings) o =
    configure atoi atoll settings (record o { port = atoi value })
configure atoi atoll (rdb value ∷ settings) o =
    configure atoi atoll settings (record o { rdb_path = value })
configure atoi atoll (aof value ∷ settings) o =
    configure atoi atoll settings (record o { aof_path = value })
configure atoi atoll (maxmemory value ∷ settings) o =
    configure atoi atoll settings (record o { max_memory_bytes = to_uint64 (atoll value) })
configure atoi atoll (unknown arg ∷ settings) o = configure atoi atoll settings o

-- An argument that is no flag.
abbrev pub IsUnknown : Bytes → Type 0
IsUnknown arg =
    (str_eq arg (codes "--port") ≡ false)
    × (str_eq arg (codes "--rdb") ≡ false)
    × (str_eq arg (codes "--aof") ≡ false)
    × (str_eq arg (codes "--maxmemory") ≡ false)

abbrev pub IsSpelled : Setting → Type 0
IsSpelled (port value) = Unit
IsSpelled (rdb value) = Unit
IsSpelled (aof value) = Unit
IsSpelled (maxmemory value) = Unit
IsSpelled (unknown arg) = IsUnknown arg

apply_unknown :
    (atoi atoll : Bytes → ℤ) (arg value : Bytes) (o : Options)
    → IsUnknown arg
    → apply_flag atoi atoll arg value o ≡ none
unfolding apply_flag
apply_unknown atoi atoll arg value o (a, b, c, d) = rw (a, b, c, d) refl

skip_unknown :
    (atoi atoll : Bytes → ℤ) (arg : Bytes) (rest : List Bytes) (o : Options)
    → IsUnknown arg
    → parse_loop atoi atoll (arg ∷ rest) o ≡ parse_loop atoi atoll rest o
unfolding parse_loop
skip_unknown atoi atoll arg [] o h = rw (parse_loop, apply_unknown atoi atoll arg [] o h) refl
skip_unknown atoi atoll arg (value ∷ rest) o h =
    rw (parse_loop, apply_unknown atoi atoll arg value o h) refl

parse_loop-spell :
    (atoi atoll : Bytes → ℤ) (settings : List Setting) (o : Options)
    → All IsSpelled settings
    → parse_loop atoi atoll (spell settings) o ≡ configure atoi atoll settings o
unfolding parse_loop apply_flag str_eq
parse_loop-spell atoi atoll [] o h = refl
parse_loop-spell atoi atoll (port value ∷ settings) o h =
    parse_loop-spell atoi atoll settings (record o { port = atoi value }) h.1
parse_loop-spell atoi atoll (rdb value ∷ settings) o h =
    parse_loop-spell atoi atoll settings (record o { rdb_path = value }) h.1
parse_loop-spell atoi atoll (aof value ∷ settings) o h =
    parse_loop-spell atoi atoll settings (record o { aof_path = value }) h.1
parse_loop-spell atoi atoll (maxmemory value ∷ settings) o h =
    parse_loop-spell atoi atoll settings (record o { max_memory_bytes = to_uint64 (atoll value) })
      h.1
parse_loop-spell atoi atoll (unknown arg ∷ settings) o h =
    skip_unknown atoi atoll arg (spell settings) o h.0 ∙ parse_loop-spell atoi atoll settings o h.1

-- ParseArgs on a row of flags with their values, with arguments between them that are no flags,
-- sets for each flag in turn what it stands for, from the defaults on, and skips the other
-- arguments.
pub parse_args-spell :
    (atoi atoll : Bytes → ℤ) (settings : List Setting)
    → All IsSpelled settings
    → parse_args atoi atoll (spell settings) ≡ configure atoi atoll settings default_options
unfolding parse_args
parse_args-spell atoi atoll settings h = parse_loop-spell atoi atoll settings default_options h
