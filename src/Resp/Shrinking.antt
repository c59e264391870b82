-- ===== src/Resp/Shrinking.antt =====
-- `CommandParser` of src/resp/command_parser.cpp takes a byte of its buffer for a command at least.
use redis_cpp.Base.{
  ℕ, zero, suc, ◌+◌, ◌≤◌, ◌<◌, inl, inr, ◌&&◌, ◌||◌, Bool-cases, Option-cases, Option, none, some,
  List, [], ◌∷◌, arith, ltb, leb, ◌==◌, length, drop, length-drop, Bytes,
}
use redis_cpp.Base.Int.{ℤ, pos, negsuc}
use redis_cpp.Resp.Numbers.{parse_int64}
use redis_cpp.Resp.Parser.{
  Status, incomplete, complete, protocol_error, Parsed, parsed, needs_more, malformed, ◌>>=◌,
  cons_line, split_crlf, valid_argc, valid_bulk_len, expect_crlf, parse_payload, parse_bulk_line,
  parse_arg, parse_args, parse_count_line, commit, try_parse_multibulk, split_newline, split_words,
  chop_cr, try_parse_inline, try_parse_command, max_args, max_bulk_len,
}

-- What is left of `n` bytes is no more than that.
abbrev Within : {A : Type 0} → ℕ → Parsed A → Type 0
Within n (parsed a rest) = length rest ≤ n
Within n needs_more = Unit
Within n (malformed e) = Unit

abbrev pub LineWithin : ℕ → Option (Bytes × Bytes) → Type 0
LineWithin n none = Unit
LineWithin n (some (line, rest)) = length rest < n

bind-Within :
    {A B : Type 0} (n m : ℕ) (p : Parsed A) (f : A → Bytes → Parsed B)
    → Within n p
    → ((a : A) (rest : Bytes) → length rest ≤ n → Within m (f a rest))
    → Within m (p >>= f)
bind-Within n m (parsed a rest) f h k = k a rest h
bind-Within n m needs_more f h k = tt
bind-Within n m (malformed e) f h k = tt

Within-le : {A : Type 0} (n m : ℕ) (p : Parsed A) → n ≤ m → Within n p → Within m p
Within-le n m (parsed a rest) h w = omega (arith, h, w)
Within-le n m needs_more h w = tt
Within-le n m (malformed e) h w = tt

cons_line-LineWithin :
    (n c : ℕ) (o : Option (Bytes × Bytes)) → LineWithin n o → LineWithin (suc n) (cons_line c o)
cons_line-LineWithin n c none h = tt
cons_line-LineWithin n c (some (line, rest)) h = omega (arith, h)

split_crlf-LineWithin : (b : Bytes) → LineWithin (length b) (split_crlf b)
unfolding split_crlf
split_crlf-LineWithin [] = tt
split_crlf-LineWithin (c ∷ []) = tt
split_crlf-LineWithin (c ∷ d ∷ cs) = elim (Bool-cases (c == 13 && d == 10)) [
  | inl found ↦ rw found (omega arith)
  | inr other ↦ rw other (
      cons_line-LineWithin (suc (length cs)) c (split_crlf (d ∷ cs))
        (split_crlf-LineWithin (d ∷ cs)))
]

pub split_newline-LineWithin : (b : Bytes) → LineWithin (length b) (split_newline b)
unfolding split_newline
split_newline-LineWithin [] = tt
split_newline-LineWithin (c ∷ cs) = elim (Bool-cases (c == 10)) [
  | inl found ↦ rw found (omega arith)
  | inr other ↦
      rw other (cons_line-LineWithin (length cs) c (split_newline cs) (split_newline-LineWithin cs))
]

expect_crlf-Within : (arg rest : Bytes) → Within (length rest) (expect_crlf arg rest)
unfolding expect_crlf
expect_crlf-Within arg [] = tt
expect_crlf-Within arg (c ∷ []) = tt
expect_crlf-Within arg (c ∷ d ∷ rest) = elim (Bool-cases (c == 13 && d == 10)) [
  | inl found ↦ rw found (omega arith)
  | inr other ↦ rw other tt
]

parse_payload-Within : (n : ℕ) (rest : Bytes) → Within (length rest) (parse_payload n rest)
unfolding parse_payload
parse_payload-Within n rest = elim (Bool-cases (ltb (length rest) (n + 2))) [
  | inl short ↦ rw short tt
  | inr enough ↦ rw enough (
      Within-le (length (drop n rest)) (length rest) (expect_crlf _ (drop n rest))
        (omega (arith, length-drop n rest)) (expect_crlf-Within _ (drop n rest)))
]

valid_bulk_len-Within : (o : Option ℤ) → Within 0 (valid_bulk_len o)
valid_bulk_len-Within none = tt
valid_bulk_len-Within (some (negsuc n)) = tt
valid_bulk_len-Within (some (pos n)) = elim (Bool-cases (ltb max_bulk_len n)) [
  | inl large ↦ rw large tt
  | inr small ↦ rw small (omega arith)
]

valid_argc-Within : (o : Option ℤ) → Within 0 (valid_argc o)
valid_argc-Within none = tt
valid_argc-Within (some (negsuc n)) = tt
valid_argc-Within (some (pos n)) = elim (Bool-cases (leb n 0 || ltb max_args n)) [
  | inl bad ↦ rw bad tt
  | inr good ↦ rw good (omega arith)
]

parse_bulk_line-Within :
    (n : ℕ) (o : Option (Bytes × Bytes)) → LineWithin n o → Within n (parse_bulk_line o)
parse_bulk_line-Within n none h = tt
parse_bulk_line-Within n (some (line, rest)) h =
    bind-Within 0 n (valid_bulk_len (parse_int64 line)) _ (valid_bulk_len-Within (parse_int64 line))
      (λ len r k.
        Within-le (length rest) n (parse_payload len rest) (omega (arith, h))
          (parse_payload-Within len rest))

parse_arg-Within : (b : Bytes) → Within (length b) (parse_arg b)
unfolding parse_arg
parse_arg-Within [] = tt
parse_arg-Within (c ∷ rest) = elim (Bool-cases (c == b'$')) [
  | inl dollar ↦ rw dollar (
      Within-le (length rest) (suc (length rest)) (parse_bulk_line (split_crlf rest)) (omega arith)
        (parse_bulk_line-Within (length rest) (split_crlf rest) (split_crlf-LineWithin rest)))
  | inr other ↦ rw other tt
]

parse_args-Within : (n : ℕ) (b : Bytes) → Within (length b) (parse_args n b)
unfolding parse_args
parse_args-Within zero b = omega arith
parse_args-Within (suc n) b =
    bind-Within (length b) (length b) (parse_arg b) _ (parse_arg-Within b) (λ arg r h.
      bind-Within (length r) (length b) (parse_args n r) _ (parse_args-Within n r)
        (λ args r' k. omega (arith, h, k)))

parse_count_line-Within :
    (n : ℕ) (o : Option (Bytes × Bytes)) → LineWithin n o → Within n (parse_count_line o)
parse_count_line-Within n none h = tt
parse_count_line-Within n (some (line, rest)) h =
    bind-Within 0 n (valid_argc (parse_int64 line)) _ (valid_argc-Within (parse_int64 line))
      (λ argc r k.
        Within-le (length rest) n (parse_args argc rest) (omega (arith, h))
          (parse_args-Within argc rest))

-- A command that is complete leaves fewer bytes than there were.
abbrev pub Takes : ℕ → Status × Bytes → Type 0
Takes n (complete args, rest) = length rest < n
Takes n (incomplete, rest) = Unit
Takes n (protocol_error e, rest) = Unit

commit-Takes :
    (n : ℕ) (b : Bytes) (p : Parsed (List Bytes)) → Within n p → Takes (suc n) (commit b p)
commit-Takes n b (parsed args rest) h = omega (arith, h)
commit-Takes n b needs_more h = tt
commit-Takes n b (malformed e) h = tt

Takes-le : (n m : ℕ) (r : Status × Bytes) → n ≤ m → Takes n r → Takes m r
Takes-le n m (complete args, rest) h k = omega (arith, h, k)
Takes-le n m (incomplete, rest) h k = tt
Takes-le n m (protocol_error e, rest) h k = tt

inline_line :
    (n : ℕ) (line rest : Bytes) (words : List Bytes) (r : Status × Bytes)
    → length rest < n
    → Takes (length rest) r
    → Takes n (elim words as (λ w. Status × Bytes) [
      | [] ↦ r
      | word ∷ more ↦ (complete (word ∷ more), rest)
    ])
inline_line n line rest [] r h k = Takes-le (length rest) n r (omega (arith, h)) k
inline_line n line rest (word ∷ words) r h k = h

try_parse_inline-Takes : (fuel : ℕ) (b : Bytes) → Takes (length b) (try_parse_inline fuel b)
unfolding try_parse_inline
try_parse_inline-Takes zero b = tt
try_parse_inline-Takes (suc fuel) b = elim (Option-cases (split_newline b)) [
  | inl e ↦ elim (Bool-cases (ltb max_bulk_len (length b))) [
    | inl long ↦ rw (try_parse_inline, e, long) tt
    | inr short ↦ rw (try_parse_inline, e, short) tt
  ]
  | inr (cut, e) ↦
      rw (try_parse_inline, e)
        (inline_line (length b) cut.0 cut.1 (split_words (chop_cr cut.0))
          (try_parse_inline fuel cut.1) (rw e at (split_newline-LineWithin b))
          (try_parse_inline-Takes fuel cut.1))
]

pub try_parse_command-Takes : (b : Bytes) → Takes (length b) (try_parse_command b)
unfolding try_parse_command try_parse_multibulk
try_parse_command-Takes [] = tt
try_parse_command-Takes (c ∷ rest) = elim (Bool-cases (c == b'*')) [
  | inl star ↦
      rw (try_parse_command, star)
        (commit-Takes (length rest) (b'*' ∷ rest) (parse_count_line (split_crlf rest))
          (parse_count_line-Within (length rest) (split_crlf rest) (split_crlf-LineWithin rest)))
  | inr other ↦
      rw (try_parse_command, other) (try_parse_inline-Takes (suc (suc (length rest))) (c ∷ rest))
]
