-- ===== src/Resp/Parser.antt =====
-- src/resp/command_parser.h and src/resp/command_parser.cpp: commands out of a byte stream.
-- A position in the buffer is modelled by what stands behind it. `TryParseCommand` is a function
-- from the buffer to a status and the buffer that is left.
use redis_cpp.Base.{
  ℕ, zero, suc, ◌+◌, ◌*◌, Bool, true, ◌&&◌, ◌||◌, Option, none, some, List, [], ◌∷◌, ◌++◌,
  if◌then◌else◌, ltb, leb, ◌==◌, length, take, drop, codes, Bytes,
}
use redis_cpp.Base.Int.{ℤ, pos, negsuc}
use redis_cpp.Resp.Numbers.{parse_int64}

-- `kIncomplete`, `kComplete` with the arguments, `kProtocolError` with its text.
pub data Status : Type 0 where
  incomplete : Status
  complete : List Bytes → Status
  protocol_error : Bytes → Status

abbrev pub max_args : ℕ
max_args = 1024

abbrev pub max_bulk_len : ℕ
max_bulk_len = 64 * 1024 * 1024

-- A part of a multibulk request, with what stands behind it.
pub data Parsed {ℓ} (A : Type ℓ) : Type ℓ where
  parsed : A → Bytes → Parsed A
  needs_more : Parsed A
  malformed : Bytes → Parsed A

infixl 5 ◌>>=◌
abbrev pub ◌>>=◌ {ℓ κ} : {A : Type ℓ} {B : Type κ} → Parsed A → (A → Bytes → Parsed B) → Parsed B
parsed a rest >>= f = f a rest
needs_more >>= f = needs_more
malformed e >>= f = malformed e

abbrev pub cons_line : ℕ → Option (Bytes × Bytes) → Option (Bytes × Bytes)
cons_line c none = none
cons_line c (some (line, rest)) = some (c ∷ line, rest)

-- `buffer_.find("\r\n", pos)`: what stands before the line end, and what behind it.
unfoldable pub split_crlf : Bytes → Option (Bytes × Bytes)
split_crlf [] = none
split_crlf (c ∷ []) = none
split_crlf (c ∷ d ∷ cs) =
    if c == 13 && d == 10 then some ([], cs) else cons_line c (split_crlf (d ∷ cs))

-- The checks on `argc`.
abbrev pub valid_argc : Option ℤ → Parsed ℕ
valid_argc none = malformed (codes "invalid multibulk length")
valid_argc (some (negsuc n)) = malformed (codes "invalid multibulk length")
valid_argc (some (pos n)) =
    if leb n 0 || ltb max_args n then malformed (codes "invalid multibulk length") else parsed n []

-- The checks on `bulk_len`.
abbrev pub valid_bulk_len : Option ℤ → Parsed ℕ
valid_bulk_len none = malformed (codes "invalid bulk length")
valid_bulk_len (some (negsuc n)) = malformed (codes "invalid bulk length")
valid_bulk_len (some (pos n)) =
    if ltb max_bulk_len n then malformed (codes "invalid bulk length") else parsed n []

-- The two bytes behind the payload.
unfoldable pub expect_crlf : Bytes → Bytes → Parsed Bytes
expect_crlf arg (c ∷ d ∷ rest) =
    if c == 13 && d == 10
    then parsed arg rest
    else malformed (codes "expected CRLF after bulk string data")
expect_crlf arg rest = needs_more

-- The payload of `bulk_len` bytes, with `rest` behind its length line.
unfoldable pub parse_payload : ℕ → Bytes → Parsed Bytes
parse_payload bulk_len rest =
    if ltb (length rest) (bulk_len + 2)
    then needs_more
    else expect_crlf (take bulk_len rest) (drop bulk_len rest)

abbrev pub parse_bulk_line : Option (Bytes × Bytes) → Parsed Bytes
parse_bulk_line none = needs_more
parse_bulk_line (some (len_str, rest)) =
    valid_bulk_len (parse_int64 len_str) >>= λ bulk_len _. parse_payload bulk_len rest

-- One round of the loop of `TryParseMultibulk`.
unfoldable pub parse_arg : Bytes → Parsed Bytes
parse_arg [] = needs_more
parse_arg (c ∷ rest) =
    if c == b'$'
    then parse_bulk_line (split_crlf rest)
    else malformed (codes "expected '$' to start a bulk string argument")

unfoldable pub parse_args : ℕ → Bytes → Parsed (List Bytes)
parse_args zero rest = parsed [] rest
parse_args (suc n) rest =
    parse_arg rest >>= λ arg rest₁. parse_args n rest₁ >>= λ args rest₂. parsed (arg ∷ args) rest₂

abbrev pub parse_count_line : Option (Bytes × Bytes) → Parsed (List Bytes)
parse_count_line none = needs_more
parse_count_line (some (count_str, rest)) =
    valid_argc (parse_int64 count_str) >>= λ argc _. parse_args argc rest

-- The buffer is erased up to the end of the command only if there is one.
abbrev pub commit : Bytes → Parsed (List Bytes) → Status × Bytes
commit buffer (parsed args rest) = (complete args, rest)
commit buffer needs_more = (incomplete, buffer)
commit buffer (malformed e) = (protocol_error e, buffer)

-- The buffer is `'*' ∷ rest`; the count line starts behind the star.
unfoldable pub try_parse_multibulk : Bytes → Status × Bytes
try_parse_multibulk rest = commit (b'*' ∷ rest) (parse_count_line (split_crlf rest))

-- `buffer_.find('\n')`.
unfoldable pub split_newline : Bytes → Option (Bytes × Bytes)
split_newline [] = none
split_newline (c ∷ cs) = if c == 10 then some ([], cs) else cons_line c (split_newline cs)

-- `if (!line.empty() && line.back() == '\r') line.pop_back();`
unfoldable pub chop_cr : Bytes → Bytes
chop_cr [] = []
chop_cr (c ∷ []) = if c == 13 then [] else c ∷ []
chop_cr (c ∷ d ∷ cs) = c ∷ chop_cr (d ∷ cs)

-- `std::isspace` in the C locale.
abbrev pub is_space : ℕ → Bool
is_space c = c == 32 || (leb 9 c && leb c 13)

abbrev pub prepend_byte : ℕ → List Bytes → List Bytes
prepend_byte c [] = (c ∷ []) ∷ []
prepend_byte c (word ∷ words) = (c ∷ word) ∷ words

-- Whether a word that comes before ends here.
unfoldable pub starts_with_space : Bytes → Bool
starts_with_space [] = true
starts_with_space (c ∷ cs) = is_space c

-- The words of a line, as the two inner loops cut them out.
unfoldable pub split_words : Bytes → List Bytes
split_words [] = []
split_words (c ∷ cs) =
    let words = split_words cs in
    if is_space c
    then words
    else if starts_with_space cs
    then (c ∷ []) ∷ words
    else prepend_byte c words

-- A line that is not blank is a command; the loop skips a blank one. Each line is at least one byte
-- of the buffer, so its length is fuel enough.
unfoldable pub try_parse_inline : ℕ → Bytes → Status × Bytes
try_parse_inline zero buffer = (incomplete, buffer)
try_parse_inline (suc fuel) buffer = elim (split_newline buffer) [
  | none ↦ (
    if ltb max_bulk_len (length buffer)
        then protocol_error (codes "inline command too long")
        else incomplete,
    buffer,
  )
  | some (line, rest) ↦ elim (split_words (chop_cr line)) [
    | [] ↦ try_parse_inline fuel rest
    | word ∷ words ↦ (complete (word ∷ words), rest)
  ]
]

unfoldable pub try_parse_command : Bytes → Status × Bytes
try_parse_command [] = (incomplete, [])
try_parse_command (c ∷ rest) =
    if c == b'*'
    then try_parse_multibulk rest
    else try_parse_inline (suc (length (c ∷ rest))) (c ∷ rest)

-- `Feed`.
unfoldable pub feed : Bytes → Bytes → Bytes
feed bytes buffer = buffer ++ bytes
