-- ===== src/Resp/Feeding.antt =====
-- More bytes behind a command do not change how src/resp/command_parser.cpp reads it: what has been
-- recognised stays recognised, whatever `recv` delivers next.
use redis_cpp.Base.{
  ℕ, zero, suc, ◌+◌, ◌≤◌, ◌≡◌, refl, ap, inl, inr, false, ◌&&◌, Option, none, some, List, [], ◌∷◌,
  ◌++◌, arith, ltb, ◌==◌, Bool-cases, length, length-append, take, drop, Bytes,
}
use redis_cpp.Resp.Numbers.{parse_int64}
use redis_cpp.Resp.Parser.{
  Status, incomplete, complete, protocol_error, Parsed, parsed, needs_more, malformed, ◌>>=◌,
  split_crlf, cons_line, valid_argc, valid_bulk_len, expect_crlf, parse_payload, parse_bulk_line,
  parse_arg, parse_args, parse_count_line, commit, try_parse_multibulk, split_newline,
}

-- What a parser does on longer input: the same, with the rest longer; a part that needs more may
-- then become anything.
abbrev Extends {ℓ} : {A : Type ℓ} → Bytes → Parsed A → Parsed A → Type ℓ
Extends more (parsed a rest) q = q ≡ parsed a (rest ++ more)
Extends more needs_more q = Unit
Extends more (malformed e) q = q ≡ malformed e

module _ {ℓ κ} {A : Type ℓ} {B : Type κ} (more : Bytes) where
  Extends-bind :
      (p q : Parsed A) (f : A → Bytes → Parsed B)
      → Extends more p q
      → ((a : A) (rest : Bytes) → Extends more (f a rest) (f a (rest ++ more)))
      → Extends more (p >>= f) (q >>= f)
  Extends-bind (parsed a rest) q f h k = rw h (k a rest)
  Extends-bind needs_more q f h k = tt
  Extends-bind (malformed e) q f h k = rw h refl

-- The same for the search of a line end.
abbrev Lengthens : Bytes → Option (Bytes × Bytes) → Option (Bytes × Bytes) → Type 0
Lengthens more none q = Unit
Lengthens more (some (line, rest)) q = q ≡ some (line, rest ++ more)

Lengthens-cons_line :
    (more : Bytes) (c : ℕ) (p q : Option (Bytes × Bytes))
    → Lengthens more p q
    → Lengthens more (cons_line c p) (cons_line c q)
Lengthens-cons_line more c none q h = tt
Lengthens-cons_line more c (some (line, rest)) q h = rw h refl

split_crlf-Lengthens : (xs more : Bytes) → Lengthens more (split_crlf xs) (split_crlf (xs ++ more))
unfolding split_crlf
split_crlf-Lengthens [] more = tt
split_crlf-Lengthens (c ∷ []) more = tt
split_crlf-Lengthens (c ∷ d ∷ cs) more = elim (Bool-cases (c == 13 && d == 10)) [
  | inl here ↦ rw here refl
  | inr later ↦ rw later (Lengthens-cons_line more c _ _ (split_crlf-Lengthens (d ∷ cs) more))
]

split_newline-Lengthens :
    (xs more : Bytes) → Lengthens more (split_newline xs) (split_newline (xs ++ more))
unfolding split_newline
split_newline-Lengthens [] more = tt
split_newline-Lengthens (c ∷ cs) more = elim (Bool-cases (c == 10)) [
  | inl here ↦ rw here refl
  | inr later ↦ rw later (Lengthens-cons_line more c _ _ (split_newline-Lengthens cs more))
]

drop-append_le {ℓ} :
    {A : Type ℓ} (n : ℕ) (xs ys : List A) → n ≤ length xs → drop n (xs ++ ys) ≡ drop n xs ++ ys
drop-append_le zero xs ys h = refl
drop-append_le (suc n) [] ys h = absurd (omega arith)
drop-append_le (suc n) (x ∷ xs) ys h = drop-append_le n xs ys (omega arith)

take-append_le {ℓ} :
    {A : Type ℓ} (n : ℕ) (xs ys : List A) → n ≤ length xs → take n (xs ++ ys) ≡ take n xs
take-append_le zero xs ys h = refl
take-append_le (suc n) [] ys h = absurd (omega arith)
take-append_le (suc n) (x ∷ xs) ys h =
    ap (λ (l : List _). x ∷ l) (take-append_le n xs ys (omega arith))

expect_crlf-Extends :
    (arg xs more : Bytes) → Extends more (expect_crlf arg xs) (expect_crlf arg (xs ++ more))
unfolding expect_crlf
expect_crlf-Extends arg [] more = tt
expect_crlf-Extends arg (c ∷ []) more = tt
expect_crlf-Extends arg (c ∷ d ∷ rest) more = elim (Bool-cases (c == 13 && d == 10)) [
  | inl ends ↦ rw ends refl
  | inr not_ends ↦ rw not_ends refl
]

parse_payload-Extends :
    (n : ℕ) (xs more : Bytes) → Extends more (parse_payload n xs) (parse_payload n (xs ++ more))
unfolding parse_payload
parse_payload-Extends n xs more = elim (Bool-cases (ltb (length xs) (n + 2))) [
  | inl short ↦ rw short tt
  | inr there ↦
      let fits : n ≤ length xs = ground arith in
      let still : ltb (length (xs ++ more)) (n + 2) ≡ false =
        ground (arith, length-append xs more) in
      rw (there, still, take-append_le n xs more fits, drop-append_le n xs more fits)
        (expect_crlf-Extends (take n xs) (drop n xs) more)
]

-- A check gives a number with nothing behind it, or an error.
Extends-check {ℓ} :
    {B : Type ℓ} (more : Bytes) (p : Parsed ℕ) (f g : ℕ → Parsed B)
    → ((n : ℕ) → Extends more (f n) (g n))
    → Extends more (p >>= λ n _. f n) (p >>= λ n _. g n)
Extends-check more (parsed n rest) f g h = h n
Extends-check more needs_more f g h = tt
Extends-check more (malformed e) f g h = refl

parse_bulk_line-Extends :
    (more : Bytes) (p q : Option (Bytes × Bytes))
    → Lengthens more p q
    → Extends more (parse_bulk_line p) (parse_bulk_line q)
parse_bulk_line-Extends more none q h = tt
parse_bulk_line-Extends more (some (line, rest)) q h = rw h (
    Extends-check more (valid_bulk_len (parse_int64 line)) (λ n. parse_payload n rest)
      (λ n. parse_payload n (rest ++ more)) (λ n. parse_payload-Extends n rest more))

parse_arg-Extends : (xs more : Bytes) → Extends more (parse_arg xs) (parse_arg (xs ++ more))
unfolding parse_arg
parse_arg-Extends [] more = tt
parse_arg-Extends (c ∷ rest) more = elim (Bool-cases (c == b'$')) [
  | inl dollar ↦ rw dollar (parse_bulk_line-Extends more _ _ (split_crlf-Lengthens rest more))
  | inr other ↦ rw other refl
]

parse_args-Extends :
    (n : ℕ) (xs more : Bytes) → Extends more (parse_args n xs) (parse_args n (xs ++ more))
unfolding parse_args
parse_args-Extends zero xs more = refl
parse_args-Extends (suc n) xs more =
    Extends-bind more (parse_arg xs) (parse_arg (xs ++ more))
      (λ arg rest. parse_args n rest >>= λ args rest'. parsed (arg ∷ args) rest')
      (parse_arg-Extends xs more)
      (λ arg rest.
        Extends-bind more (parse_args n rest) (parse_args n (rest ++ more))
          (λ args rest'. parsed (arg ∷ args) rest') (parse_args-Extends n rest more)
          (λ args rest'. refl))

parse_count_line-Extends :
    (more : Bytes) (p q : Option (Bytes × Bytes))
    → Lengthens more p q
    → Extends more (parse_count_line p) (parse_count_line q)
parse_count_line-Extends more none q h = tt
parse_count_line-Extends more (some (line, rest)) q h = rw h (
    Extends-check more (valid_argc (parse_int64 line)) (λ n. parse_args n rest)
      (λ n. parse_args n (rest ++ more)) (λ n. parse_args-Extends n rest more))

-- A call of the parser on a longer buffer.
abbrev pub Stable : Bytes → Status × Bytes → Status × Bytes → Type 0
Stable more (complete args, rest) r = r ≡ (complete args, rest ++ more)
Stable more (protocol_error e, buffer) r = r ≡ (protocol_error e, buffer ++ more)
Stable more (incomplete, buffer) r = Unit

commit-Stable :
    (more buffer : Bytes) (p q : Parsed (List Bytes))
    → Extends more p q
    → Stable more (commit buffer p) (commit (buffer ++ more) q)
commit-Stable more buffer (parsed args rest) q h = rw h refl
commit-Stable more buffer needs_more q h = tt
commit-Stable more buffer (malformed e) q h = rw h refl

-- A multibulk request that the parser has found complete, or refused, in some bytes is read the
-- same with more bytes behind them, which stay in the buffer.
pub try_parse_multibulk-Stable :
    (buffer more : Bytes)
    → Stable more (try_parse_multibulk buffer) (try_parse_multibulk (buffer ++ more))
unfolding try_parse_multibulk
try_parse_multibulk-Stable buffer more =
    commit-Stable more (b'*' ∷ buffer) _ _
      (parse_count_line-Extends more _ _ (split_crlf-Lengthens buffer more))
