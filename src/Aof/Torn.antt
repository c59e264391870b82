-- ===== src/Aof/Torn.antt =====
-- A log of src/server/aof.cpp with a command that a failed write has cut short, and one behind it.
use mathlib.Core.List.{append_assoc}
use redis_cpp.Base.{
  ℕ, ◌+◌, ◌^◌, ◌≤◌, ◌<◌, ◌≡◌, refl, sym, ◌∙◌, ap, Bool, true, false, some, List, [], ◌∷◌, ◌++◌,
  arith, ltb, leb, ◌==◌, codes, length, length-append, take, take-append, drop-append, Bytes, All,
}
use redis_cpp.Base.Int.{pos}
use redis_cpp.Resp.{crlf, bulk_string, encode, encode_items, bulk_items}
use redis_cpp.Resp.Numbers.{to_string, parse_int64-to_string}
use redis_cpp.Resp.Parser.{
  malformed, max_bulk_len, expect_crlf, parse_payload, parse_arg, parse_args, max_args,
  try_parse_multibulk, try_parse_command,
}
use redis_cpp.Resp.RoundTrip.{
  IsCommand, wire, parse_arg-encode, count_items-bulk_items, split_crlf-number,
}
use redis_cpp.Store.{Store}
use redis_cpp.Aof.{Answer, append, load_aof}
use redis_cpp.Aof.Replay.{log_of, run_all, stops, load_aof-stops}
use redis_cpp.Aof.Appending.{append-whole}

-- The arguments of a command on the wire, less the last byte.
torn_items : List Bytes → Bytes
torn_items [] = []
torn_items (s ∷ []) = b'$' ∷ (to_string (pos (length s)) ++ (crlf ++ (s ++ (13 ∷ []))))
torn_items (s ∷ t ∷ args) = encode (bulk_string s) ++ torn_items (t ∷ args)

torn_items-whole :
    (s : Bytes) (args : List Bytes)
    → torn_items (s ∷ args) ++ (10 ∷ []) ≡ encode_items (bulk_items (s ∷ args))
unfolding torn_items encode_items encode bulk_items
torn_items-whole s [] = simp append_assoc refl
torn_items-whole s (t ∷ args) =
    append_assoc (encode (bulk_string s)) (torn_items (t ∷ args)) (10 ∷ [])
    ∙ ap (λ (l : Bytes). encode (bulk_string s) ++ l) (torn_items-whole t args)

abbrev no_line_end : Bytes
no_line_end = codes "expected CRLF after bulk string data"

expect_crlf-other :
    (s rest : Bytes) (c : ℕ)
    → (c == 10) ≡ false
    → parse_payload (length s) (s ++ (13 ∷ c ∷ rest)) ≡ malformed no_line_end
unfolding parse_payload expect_crlf
expect_crlf-other s rest c other =
    let enough : ltb (length (s ++ (13 ∷ c ∷ rest))) (length s + 2) ≡ false =
      ground (arith, length-append s (13 ∷ c ∷ rest)) in
    rw (enough, take-append s (13 ∷ c ∷ rest), drop-append s (13 ∷ c ∷ rest), other) refl

-- The parser finds the byte that follows instead of the line end.
torn_items-malformed :
    (s : Bytes) (args : List Bytes) (c : ℕ) (rest : Bytes)
    → (c == 10) ≡ false
    → All (λ s. length s ≤ max_bulk_len) (s ∷ args)
    → parse_args (length (s ∷ args)) (torn_items (s ∷ args) ++ (c ∷ rest)) ≡ malformed no_line_end
unfolding parse_args parse_arg torn_items
torn_items-malformed s [] c rest other h =
    let small : ltb max_bulk_len (length s) ≡ false = ground (arith, h.0) in
    let fits : length s < 2 ^ 63 = omega (arith, h.0) in
    simp append_assoc (
      rw
        (
          split_crlf-number (length s) (s ++ (13 ∷ c ∷ rest)),
          parse_int64-to_string (pos (length s)) fits,
          small,
          expect_crlf-other s rest c other,
        )
        refl)
torn_items-malformed s (t ∷ args) c rest other h =
    rw
      (
        append_assoc (encode (bulk_string s)) (torn_items (t ∷ args)) (c ∷ rest),
        parse_arg-encode s (torn_items (t ∷ args) ++ (c ∷ rest)) h.0,
        torn_items-malformed t args c rest other h.1,
      )
      refl

snoc-inj : (xs ys : Bytes) (a : ℕ) → xs ++ (a ∷ []) ≡ ys ++ (a ∷ []) → xs ≡ ys
snoc-inj xs ys a h =
    let l : length xs ≡ length ys =
      omega (arith, length-append xs (a ∷ []), length-append ys (a ∷ []), ap length h) in
    sym (take-append xs (a ∷ []))
    ∙ ap (take (length xs)) h
    ∙ ap (λ (n : ℕ). take n (ys ++ (a ∷ []))) l
    ∙ take-append ys (a ∷ [])

abbrev torn : Bytes → List Bytes → Bytes
torn s args = b'*' ∷ (to_string (pos (length (s ∷ args))) ++ (crlf ++ torn_items (s ∷ args)))

torn-whole : (s : Bytes) (args : List Bytes) → torn s args ++ (10 ∷ []) ≡ wire (s ∷ args)
unfolding encode
torn-whole s args =
    rw (← torn_items-whole s args, count_items-bulk_items (s ∷ args)) (simp append_assoc refl)

-- A command that lacks its last byte, with the first byte of another behind it.
torn-stops :
    (args : List Bytes) (part : Bytes) (c : ℕ) (rest : Bytes)
    → IsCommand args
    → part ++ (10 ∷ []) ≡ wire args
    → (c == 10) ≡ false
    → stops (try_parse_command (part ++ (c ∷ rest))).0 ≡ some false
unfolding try_parse_command try_parse_multibulk encode
torn-stops [] part c rest ok h other = absurd (omega (arith, ok.some_args))
torn-stops (s ∷ args) part c rest ok h other =
    let n = length (s ∷ args) in
    let same : part ≡ torn s args = snoc-inj part (torn s args) 10 (h ∙ sym (torn-whole s args)) in
    let few : ltb max_args n ≡ false = ground (arith, ok.few_args) in
    let some_there : leb n 0 ≡ false = ground arith in
    let fits : n < 2 ^ 63 = omega (arith, ok.few_args) in
    rw same (
      simp append_assoc (
        rw
          (
            split_crlf-number n (torn_items (s ∷ args) ++ (c ∷ rest)),
            parse_int64-to_string (pos n) fits,
            some_there,
            few,
            torn_items-malformed s args c rest other ok.small_args,
          )
          refl))

-- If Append to a log of commands within the limits of the parser has left a command there without
-- its last byte, and Append of the next command has returned true, LoadAof returns false and
-- replays the commands before these two only.
pub append_torn-lost :
    (commands : List (List Bytes)) (args next : List Bytes) (part : Bytes)
    (answers answers' : List Answer) (sync sync' : Bool) (clock : ℕ → ℕ) (s : Store)
    → All IsCommand commands
    → IsCommand args
    → part ++ (10 ∷ []) ≡ wire args
    → (append true answers sync args (log_of commands)).1 ≡ log_of commands ++ part
    → let file = (append true answers sync args (log_of commands)).1 in
      (append true answers' sync' next file).0 ≡ true
      → load_aof (some (append true answers' sync' next file).1) clock s
        ≡ (false, run_all 0 clock commands s)
unfolding encode
append_torn-lost commands args next part answers answers' sync sync' clock s ok okay torn_at left
      h =
    let file = (append true answers sync args (log_of commands)).1 in
    ap (λ (b : Bytes). load_aof (some b) clock s)
      (append-whole next file answers' sync' h
        ∙ ap (λ (b : Bytes). b ++ wire next) left
        ∙ append_assoc (log_of commands) part (wire next))
    ∙ load_aof-stops commands (part ++ wire next) clock s false ok
        (torn-stops args part b'*' _ okay torn_at refl)
