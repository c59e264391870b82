-- ===== src/Resp/Inline.antt =====
-- Inline requests of src/resp/command_parser.cpp: the words of a line.
use redis_cpp.Base.{
  ℕ, suc, ◌≡◌, refl, sym, ◌∙◌, ap, false, some, List, [], ◌∷◌, ◌++◌, arith, ◌==◌, length, Bytes,
  All, All-append,
}
use redis_cpp.Resp.Parser.{
  complete, cons_line, split_newline, chop_cr, is_space, prepend_byte, starts_with_space,
  split_words, try_parse_inline, try_parse_command,
}

abbrev pub IsWord : Bytes → Type 0
IsWord [] = ⊥
IsWord (c ∷ cs) = All (λ d. is_space d ≡ false) (c ∷ cs)

-- Words with a space between them.
abbrev pub line_of : List Bytes → Bytes
line_of [] = []
line_of (word ∷ []) = word
line_of (word ∷ next ∷ words) = word ++ (32 ∷ line_of (next ∷ words))

-- A byte before a byte of a word belongs to that word.
split_words-joins :
    (c d : ℕ) (cs : Bytes)
    → is_space c ≡ false
    → is_space d ≡ false
    → split_words (c ∷ d ∷ cs) ≡ prepend_byte c (split_words (d ∷ cs))
unfolding split_words starts_with_space
split_words-joins c d cs h k = rw (h, k) refl

split_words-word :
    (c : ℕ) (cs rest : Bytes)
    → IsWord (c ∷ cs)
    → split_words ((c ∷ cs) ++ (32 ∷ rest)) ≡ (c ∷ cs) ∷ split_words rest
unfolding split_words starts_with_space
split_words-word c [] rest h = rw h.0 refl
split_words-word c (d ∷ cs) rest h =
    split_words-joins c d (cs ++ (32 ∷ rest)) h.0 h.1.0
    ∙ ap (prepend_byte c) (split_words-word d cs rest h.1)

split_words-last : (c : ℕ) (cs : Bytes) → IsWord (c ∷ cs) → split_words (c ∷ cs) ≡ (c ∷ cs) ∷ []
unfolding split_words starts_with_space
split_words-last c [] h = rw h.0 refl
split_words-last c (d ∷ cs) h =
    split_words-joins c d cs h.0 h.1.0 ∙ ap (prepend_byte c) (split_words-last d cs h.1)

split_words-line_of : (words : List Bytes) → All IsWord words → split_words (line_of words) ≡ words
unfolding split_words
split_words-line_of [] h = refl
split_words-line_of ([] ∷ words) h = absurd h.0
split_words-line_of ((c ∷ cs) ∷ []) h = split_words-last c cs h.0
split_words-line_of ((c ∷ cs) ∷ next ∷ words) h =
    split_words-word c cs (line_of (next ∷ words)) h.0
    ∙ ap (λ l. (c ∷ cs) ∷ l) (split_words-line_of (next ∷ words) h.1)

-- No byte of such a line ends it.
InLine : ℕ → Type 0
InLine c = (c == 10) ≡ false

word-InLine : (w : Bytes) → All (λ d. is_space d ≡ false) w → All InLine w
unfolding InLine
word-InLine [] h = tt
word-InLine (c ∷ cs) h = (ground (arith, h.0), word-InLine cs h.1)

line_of-InLine : (words : List Bytes) → All IsWord words → All InLine (line_of words)
unfolding InLine
line_of-InLine [] h = tt
line_of-InLine ([] ∷ words) h = absurd h.0
line_of-InLine ((c ∷ cs) ∷ []) h = word-InLine (c ∷ cs) h.0
line_of-InLine ((c ∷ cs) ∷ next ∷ words) h =
    All-append InLine (c ∷ cs) (32 ∷ line_of (next ∷ words)) (word-InLine (c ∷ cs) h.0)
      (refl, line_of-InLine (next ∷ words) h.1)

split_newline-line :
    (line rest : Bytes)
    → All InLine line
    → split_newline (line ++ (13 ∷ 10 ∷ rest)) ≡ some (line ++ (13 ∷ []), rest)
unfolding split_newline InLine
split_newline-line [] rest h = refl
split_newline-line (c ∷ line) rest h = rw h.0 (ap (cons_line c) (split_newline-line line rest h.1))

chop_cr-line : (line : Bytes) → chop_cr (line ++ (13 ∷ [])) ≡ line
unfolding chop_cr
chop_cr-line [] = refl
chop_cr-line (c ∷ []) = refl
chop_cr-line (c ∷ d ∷ line) = ap (λ l. c ∷ l) (chop_cr-line (d ∷ line))

inline_request :
    (fuel : ℕ) (word : Bytes) (words : List Bytes) (rest : Bytes)
    → All IsWord (word ∷ words)
    → try_parse_inline (suc fuel) (line_of (word ∷ words) ++ (13 ∷ 10 ∷ rest))
      ≡ (complete (word ∷ words), rest)
unfolding try_parse_inline
inline_request fuel word words rest h =
    let line = line_of (word ∷ words) in
    rw
      (
        try_parse_inline,
        split_newline-line line rest (line_of-InLine (word ∷ words) h),
        chop_cr-line line,
        split_words-line_of (word ∷ words) h,
      )
      refl

-- The first byte of a line of words.
line_of-head :
    (c : ℕ) (cs : Bytes) (words : List Bytes) (rest : Bytes)
    → (more : Bytes) × (line_of ((c ∷ cs) ∷ words) ++ rest ≡ c ∷ more)
line_of-head c cs [] rest = (cs ++ rest, refl)
line_of-head c cs (next ∷ words) rest = ((cs ++ (32 ∷ line_of (next ∷ words))) ++ rest, refl)

-- A line of words, each of one byte that is no white space or more, with a space between them,
-- that does not start with a star and ends in CR LF, is parsed as the command of these words, and
-- what stands behind it is left in the buffer.
pub try_parse_command-line_of :
    (c : ℕ) (cs : Bytes) (words : List Bytes) (rest : Bytes)
    → All IsWord ((c ∷ cs) ∷ words)
    → (c == b'*') ≡ false
    → try_parse_command (line_of ((c ∷ cs) ∷ words) ++ (13 ∷ 10 ∷ rest))
      ≡ (complete ((c ∷ cs) ∷ words), rest)
unfolding try_parse_command
try_parse_command-line_of c cs words rest h plain =
    let (more, e) = line_of-head c cs words (13 ∷ 10 ∷ rest) in
    let inline : try_parse_command (c ∷ more)
        ≡ try_parse_inline (suc (length (c ∷ more))) (c ∷ more) =
      rw plain refl in
    ap try_parse_command e
    ∙ inline
    ∙ ap (try_parse_inline (suc (length (c ∷ more)))) (sym e)
    ∙ inline_request (length (c ∷ more)) (c ∷ cs) words rest h
