-- ===== src/Aof/Replay.antt =====
-- `LoadAof` of src/server/aof.cpp replays the commands of a log, one after the other.
use redis_cpp.Base.{
  ℕ, zero, suc, ◌≤◌, ◌<◌, ◌≡◌, refl, sym, ◌∙◌, ap, Bool, true, false, Option, none, some, List, [],
  ◌∷◌, ◌++◌, arith, length, length-append, append-nil, Bytes, All,
}
use mathlib.Core.List.{append_assoc}
use redis_cpp.Resp.Parser.{
  Status, incomplete, complete, protocol_error, feed, Parsed, parsed, needs_more, malformed, commit,
  split_crlf, parse_count_line, try_parse_multibulk, try_parse_command,
}
use redis_cpp.Resp.{encode}
use redis_cpp.Resp.RoundTrip.{IsCommand, wire, try_parse_command-encode}
use redis_cpp.Resp.Feeding.{Stable, try_parse_multibulk-Stable}
use redis_cpp.Store.{Store}
use redis_cpp.Aof.{dispatch_args, replay, load_aof}

-- A log of commands, and what it does when run in order.
abbrev pub log_of : List (List Bytes) → Bytes
log_of [] = []
log_of (args ∷ commands) = wire args ++ log_of commands

abbrev pub run_all : ℕ → (ℕ → ℕ) → List (List Bytes) → Store → Store
run_all i clock [] s = s
run_all i clock (args ∷ commands) s =
    run_all (suc i) clock commands (dispatch_args (clock i) args s)

-- The parser says of a part of a command that it is one.
no_more :
    (c : ℕ) (more : Bytes) (args : List Bytes) (r : Status × Bytes)
    → Stable (c ∷ more) r (complete args, [])
    → r.0 ≡ incomplete
no_more c more args (incomplete, rest) h = refl
no_more c more args (complete args', []) h = absurd (cc (h))
no_more c more args (complete args', d ∷ rest) h = absurd (cc (h))
no_more c more args (protocol_error e, rest) h = absurd (cc (h))

abbrev head : Bytes → ℕ
head [] = 0
head (b ∷ bs) = b

starred :
    (buffer : Bytes) (r : Status × Bytes)
    → try_parse_command (b'*' ∷ buffer) ≡ r
    → try_parse_multibulk buffer ≡ r
unfolding try_parse_command
starred buffer r h = h

-- A part of a command that lacks a byte of it.
pub torn_command :
    (args : List Bytes) (part : Bytes) (c : ℕ) (more : Bytes)
    → IsCommand args
    → wire args ≡ part ++ (c ∷ more)
    → (try_parse_command part).0 ≡ incomplete
unfolding try_parse_command encode
torn_command args [] c more ok h = refl
torn_command args (b ∷ part) c more ok h =
    let star : b ≡ b'*' = sym (ap head h) in
    let whole : try_parse_command (b'*' ∷ (part ++ (c ∷ more))) ≡ (complete args, []) =
      ap (λ (x : ℕ). try_parse_command (x ∷ (part ++ (c ∷ more)))) (sym star)
      ∙ ap try_parse_command (sym (append-nil (wire args) ∙ h))
      ∙ try_parse_command-encode args [] ok in
    let stable = try_parse_multibulk-Stable part (c ∷ more) in
    rw star (
      no_more c more args (try_parse_multibulk part)
        (rw (sym (starred (part ++ (c ∷ more)) (complete args, []) whole)) stable))

pub commit-incomplete :
    (buffer : Bytes) (p : Parsed (List Bytes))
    → (commit buffer p).0 ≡ incomplete
    → commit buffer p ≡ (incomplete, buffer)
commit-incomplete buffer (parsed args rest) h = absurd (cc (h))
commit-incomplete buffer needs_more h = refl
commit-incomplete buffer (malformed e) h = absurd (cc (h))

-- The bytes of such a part stay in the buffer.
pub torn_command_left :
    (args : List Bytes) (part : Bytes) (c : ℕ) (more : Bytes)
    → IsCommand args
    → wire args ≡ part ++ (c ∷ more)
    → try_parse_command part ≡ (incomplete, part)
unfolding try_parse_command try_parse_multibulk encode
torn_command_left args [] c more ok h = refl
torn_command_left args (b ∷ part) c more ok h =
    let star : b ≡ b'*' = sym (ap head h) in
    let short = torn_command args (b ∷ part) c more ok h in
    rw star
      (commit-incomplete (b'*' ∷ part) (parse_count_line (split_crlf part)) (rw star at short))

-- A round of the loop, on a command and on a part of one.
replay_complete :
    (buffer rest : Bytes) (args : List Bytes) (fuel i : ℕ) (clock : ℕ → ℕ) (s : Store)
    → try_parse_command buffer ≡ (complete args, rest)
    → replay (suc fuel) i clock buffer s
      ≡ replay fuel (suc i) clock rest (dispatch_args (clock i) args s)
unfolding replay
replay_complete buffer rest args fuel i clock s h =
    let done : (try_parse_command buffer).0 ≡ complete args = ap (λ (r : Status × Bytes). r.0) h in
    let left : (try_parse_command buffer).1 ≡ rest = ap (λ (r : Status × Bytes). r.1) h in
    rw (replay, done, left) refl

-- What the loop returns where the parser gives no command.
abbrev pub stops : Status → Option Bool
stops incomplete = some true
stops (complete args) = none
stops (protocol_error e) = some false

replay-stops :
    (buffer : Bytes) (fuel i : ℕ) (clock : ℕ → ℕ) (s : Store) (b : Bool)
    → stops (try_parse_command buffer).0 ≡ some b
    → replay (suc fuel) i clock buffer s ≡ (b, s)
unfolding replay
replay-stops buffer fuel i clock s b h = go (try_parse_command buffer).0 refl h
  where
    go :
        (st : Status)
        → (try_parse_command buffer).0 ≡ st
        → stops st ≡ some b
        → replay (suc fuel) i clock buffer s ≡ (b, s)
    go incomplete e h' = rw (replay, e) (ground (arith, h'))
    go (complete args) e h' = absurd (cc (h'))
    go (protocol_error m) e h' = rw (replay, e) (ground (arith, h'))

-- The loop over a log, with bytes behind it that are no command.
replay-log_of :
    (commands : List (List Bytes)) (tail : Bytes) (fuel i : ℕ) (clock : ℕ → ℕ) (s : Store)
    (b : Bool)
    → All IsCommand commands
    → stops (try_parse_command tail).0 ≡ some b
    → length commands < fuel
    → replay fuel i clock (log_of commands ++ tail) s ≡ (b, run_all i clock commands s)
replay-log_of commands tail zero i clock s b ok ends h = absurd (omega arith)
replay-log_of [] tail (suc fuel) i clock s b ok ends h = replay-stops tail fuel i clock s b ends
replay-log_of (args ∷ commands) tail (suc fuel) i clock s b ok ends h =
    let rest = log_of commands ++ tail in
    ap (λ (b : Bytes). replay (suc fuel) i clock b s)
      (append_assoc (wire args) (log_of commands) tail)
    ∙ replay_complete (wire args ++ rest) rest args fuel i clock s
        (try_parse_command-encode args rest ok.0)
    ∙ replay-log_of commands tail fuel (suc i) clock (dispatch_args (clock i) args s) b ok.1 ends
        (omega arith)

pub length-wire : (args : List Bytes) → 0 < length (wire args)
unfolding encode
length-wire args = omega arith

length-log_of : (commands : List (List Bytes)) → length commands ≤ length (log_of commands)
length-log_of [] = omega arith
length-log_of (args ∷ commands) =
    omega
      (arith, length-append (wire args) (log_of commands), length-log_of commands, length-wire args)

-- LoadAof on a log of commands within the limits of the parser, with bytes behind it that the
-- parser reads no command from, dispatches these commands in order; it returns true if the bytes
-- are incomplete, and false if they are malformed.
pub load_aof-stops :
    (commands : List (List Bytes)) (tail : Bytes) (clock : ℕ → ℕ) (s : Store) (b : Bool)
    → All IsCommand commands
    → stops (try_parse_command tail).0 ≡ some b
    → load_aof (some (log_of commands ++ tail)) clock s ≡ (b, run_all 0 clock commands s)
unfolding load_aof feed
load_aof-stops commands tail clock s b ok ends =
    replay-log_of commands tail (suc (length (log_of commands ++ tail))) 0 clock s b ok ends
      (omega (arith, length-append (log_of commands) tail, length-log_of commands))

pub load_aof-log_of :
    (commands : List (List Bytes)) (tail : Bytes) (clock : ℕ → ℕ) (s : Store)
    → All IsCommand commands
    → (try_parse_command tail).0 ≡ incomplete
    → load_aof (some (log_of commands ++ tail)) clock s ≡ (true, run_all 0 clock commands s)
load_aof-log_of commands tail clock s ok ends =
    load_aof-stops commands tail clock s true ok (ap stops ends)
