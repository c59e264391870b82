-- ===== src/Resp/Ends.antt =====
-- The loop of `TryParseInline` in src/resp/command_parser.cpp comes to an end of its own.
use redis_cpp.Base.{
  ℕ, zero, suc, ◌<◌, ◌≡◌, refl, ap, ◌⊎◌, inl, inr, Option-cases, List, [], ◌∷◌, arith, length,
  Bytes,
}
use redis_cpp.Resp.Parser.{
  Status, incomplete, complete, protocol_error, split_newline, split_words, chop_cr,
  try_parse_inline,
}
use redis_cpp.Resp.Shrinking.{split_newline-LineWithin}

-- How a parse may end.
pub Status-cases :
    (r : Status × Bytes)
    → ((rest : Bytes) × (r ≡ (incomplete, rest)))
      ⊎ ((args : List Bytes) × (rest : Bytes) × (r ≡ (complete args, rest)))
      ⊎ ((e : Bytes) × (rest : Bytes) × (r ≡ (protocol_error e, rest)))
Status-cases (incomplete, rest) = inl (rest, refl)
Status-cases (complete args, rest) = inr (inl (args, rest, refl))
Status-cases (protocol_error e, rest) = inr (inr (e, rest, refl))

-- The fuel of the inline parser is enough.
pub try_parse_inline_enough :
    (n m : ℕ) (b : Bytes)
    → length b < n
    → length b < m
    → try_parse_inline n b ≡ try_parse_inline m b
unfolding try_parse_inline
try_parse_inline_enough zero m b h k = absurd (omega arith)
try_parse_inline_enough (suc n) zero b h k = absurd (omega arith)
try_parse_inline_enough (suc n) (suc m) b h k = elim (Option-cases (split_newline b)) [
  | inl e ↦ rw (try_parse_inline, e) refl
  | inr (cut, e) ↦
      let shorter = rw e at (split_newline-LineWithin b) in
      let rest =
        try_parse_inline_enough n m cut.1 (omega (arith, shorter, h)) (omega (arith, shorter, k)) in
      rw (try_parse_inline, e)
        (ap
          (λ (r : Status × Bytes). elim (split_words (chop_cr cut.0)) as (λ w. Status × Bytes) [
            | [] ↦ r
            | word ∷ words ↦ (complete (word ∷ words), cut.1)
          ])
          rest)
]
