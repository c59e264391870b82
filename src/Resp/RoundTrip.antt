-- ===== src/Resp/RoundTrip.antt =====
-- A command written as an array of bulk strings by src/resp/resp_value.cpp is read back by
-- src/resp/command_parser.cpp, with what stands behind it left in the buffer.
use mathlib.Core.List.{append_assoc}
use redis_cpp.Base.{
  ℕ, suc, ◌+◌, ◌^◌, ◌≤◌, ◌<◌, ◌≡◌, refl, ap, false, some, List, [], ◌∷◌, ◌++◌, arith, ltb, leb,
  ◌==◌, length, length-append, take-append, drop-append, Bytes, All,
}
use redis_cpp.Base.Int.{pos}
use redis_cpp.Resp.Numbers.{to_string, decimal, IsDigits, decimal-IsDigits, parse_int64-to_string}
use redis_cpp.Resp.{count_items, bulk_string, array, crlf, encode, encode_items, bulk_items}
use redis_cpp.Resp.Parser.{
  complete, parsed, max_args, max_bulk_len, split_crlf, cons_line, expect_crlf, parse_payload,
  parse_arg, parse_args, try_parse_multibulk, try_parse_command,
}

abbrev Digits : Bytes → Type 0
Digits = All (λ d. (48 ≤ d) × (d ≤ 57))

split_crlf-Digits :
    (line rest : Bytes) → Digits line → split_crlf (line ++ (13 ∷ 10 ∷ rest)) ≡ some (line, rest)
unfolding split_crlf
split_crlf-Digits [] rest h = refl
split_crlf-Digits (c ∷ []) rest h = ground arith
split_crlf-Digits (c ∷ d ∷ line) rest h =
    let ih = split_crlf-Digits (d ∷ line) rest h.1 in
    let digit : (c == 13) ≡ false = ground arith in rw digit (ap (cons_line c) ih)

IsDigits-Digits : (xs : Bytes) → IsDigits xs → Digits xs
IsDigits-Digits [] h = absurd h
IsDigits-Digits (c ∷ cs) h = h

-- A length line is read back.
pub split_crlf-number :
    (n : ℕ) (rest : Bytes)
    → split_crlf (to_string (pos n) ++ (crlf ++ rest)) ≡ some (to_string (pos n), rest)
unfolding to_string
split_crlf-number n rest =
    split_crlf-Digits (decimal n) rest (IsDigits-Digits (decimal n) (decimal-IsDigits n))

parse_payload-lem :
    (s rest : Bytes) → parse_payload (length s) (s ++ (crlf ++ rest)) ≡ parsed s rest
unfolding parse_payload expect_crlf
parse_payload-lem s rest =
    let enough : ltb (length (s ++ (crlf ++ rest))) (length s + 2) ≡ false =
      ground (arith, length-append s (crlf ++ rest)) in
    rw (enough, take-append s (crlf ++ rest), drop-append s (crlf ++ rest)) refl

-- One argument.
pub parse_arg-encode :
    (s rest : Bytes)
    → length s ≤ max_bulk_len
    → parse_arg (encode (bulk_string s) ++ rest) ≡ parsed s rest
unfolding parse_arg encode
parse_arg-encode s rest h =
    let small : ltb max_bulk_len (length s) ≡ false = ground arith in
    let fits : length s < 2 ^ 63 = omega arith in
    simp append_assoc (
      rw
        (
          split_crlf-number (length s) (s ++ (crlf ++ rest)),
          parse_int64-to_string (pos (length s)) fits,
          small,
        )
        (parse_payload-lem s rest))

parse_args-encode :
    (args : List Bytes) (rest : Bytes)
    → All (λ s. length s ≤ max_bulk_len) args
    → parse_args (length args) (encode_items (bulk_items args) ++ rest) ≡ parsed args rest
unfolding parse_args encode_items bulk_items
parse_args-encode [] rest h = refl
parse_args-encode (s ∷ args) rest h =
    rw
      (
        append_assoc (encode (bulk_string s)) (encode_items (bulk_items args)) rest,
        parse_arg-encode s (encode_items (bulk_items args) ++ rest) h.0,
        parse_args-encode args rest h.1,
      )
      refl

pub count_items-bulk_items : (args : List Bytes) → count_items (bulk_items args) ≡ length args
unfolding count_items bulk_items
count_items-bulk_items [] = refl
count_items-bulk_items (s ∷ args) = ap suc (count_items-bulk_items args)

-- The limits that the parser puts on a command.
pub record IsCommand (args : List Bytes) : Type 0 where
  pub some_args : 0 < length args
  pub few_args : length args ≤ max_args
  pub small_args : All (λ s. length s ≤ max_bulk_len) args

-- The bytes of a command.
abbrev pub wire : List Bytes → Bytes
wire args = encode (array (bulk_items args))

-- A command of 1 to 1024 arguments of at most 64 MiB each, encoded as an array of bulk strings
-- with anything behind it, is parsed back whole, and what stands behind it is left in the buffer.
pub try_parse_command-encode :
    (args : List Bytes) (rest : Bytes)
    → IsCommand args
    → try_parse_command (wire args ++ rest) ≡ (complete args, rest)
unfolding try_parse_command try_parse_multibulk encode
try_parse_command-encode args rest c =
    let n = length args in
    let some_there : leb n 0 ≡ false = ground (arith, c.some_args) in
    let few : ltb max_args n ≡ false = ground (arith, c.few_args) in
    let fits : n < 2 ^ 63 = omega (arith, c.few_args) in
    simp append_assoc (
      rw
        (
          count_items-bulk_items args,
          split_crlf-number n (encode_items (bulk_items args) ++ rest),
          parse_int64-to_string (pos n) fits,
          some_there,
          few,
          parse_args-encode args rest c.small_args,
        )
        refl)
