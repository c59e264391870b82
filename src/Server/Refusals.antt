-- ===== src/Server/Refusals.antt =====
-- `HandleClient` of src/server/tcp_server.cpp on a request that breaks the protocol.
use mathlib.Core.List.{append_assoc, flatten}
use redis_cpp.Base.{
  All-append_right, append_cut, ℕ, zero, suc, ◌<◌, ◌≡◌, refl, sym, ◌∙◌, ap, ◌⊎◌, inl, inr, List, [],
  ◌∷◌, ◌++◌, arith, length, length-append, append-nil, codes, Bytes, All,
}
use redis_cpp.Resp.Parser.{
  Status, incomplete, complete, protocol_error, feed, parse_count_line, split_crlf,
  try_parse_multibulk, try_parse_command,
}
use redis_cpp.Resp.RoundTrip.{IsCommand, wire, try_parse_command-encode}
use redis_cpp.Resp.Feeding.{Stable, try_parse_multibulk-Stable}
use redis_cpp.Aof.Replay.{log_of, torn_command_left, length-wire, commit-incomplete}
use redis_cpp.Server.{Kernel, Session, Turn, closed, waiting, refuse, drain, handle_client}
use redis_cpp.Server.Sending.{IsOpen, send_all-whole}
use redis_cpp.Resp.{error, encode}
use redis_cpp.Server.Requests.{
  answered, answered_all, answered_all-append, drain_complete, drain_incomplete,
  handle_client_waiting, nothing_there,
}

-- A request that the parser refuses, in the bytes behind its star.
abbrev pub IsRefused : Bytes → Bytes → Type 0
IsRefused bad e = (try_parse_command (b'*' ∷ bad)).0 ≡ protocol_error e

Stable-refused :
    (more e : Bytes) (r r' : Status × Bytes)
    → Stable more r r'
    → r'.0 ≡ protocol_error e
    → (r.0 ≡ incomplete) ⊎ (r.0 ≡ protocol_error e)
Stable-refused more e (incomplete, b) r' h refused = inl refl
Stable-refused more e (complete args, b) r' h refused = absurd (cc (h, refused))
Stable-refused more e (protocol_error e', b) r' h refused = inr (cc (h, refused))

-- The parser waits for more of such a request, or refuses it with the same words.
refused_start :
    (b rest bad e : Bytes)
    → b ++ rest ≡ bad
    → IsRefused bad e
    → (try_parse_command (b'*' ∷ b) ≡ (incomplete, b'*' ∷ b))
      ⊎ ((try_parse_command (b'*' ∷ b)).0 ≡ protocol_error e)
unfolding try_parse_command try_parse_multibulk
refused_start b rest bad e split refused =
    elim (Stable-refused rest e (try_parse_multibulk b) (try_parse_multibulk (b ++ rest))
      (try_parse_multibulk-Stable b rest) (rw split refused)) [
        | inl short ↦ inl (commit-incomplete (b'*' ∷ b) (parse_count_line (split_crlf b)) short)
        | inr same ↦ inr same
      ]

drain_refused :
    (fuel : ℕ) (accepted : Kernel) (clock : ℕ → ℕ) (buffer e : Bytes) (c : Session)
    → (try_parse_command buffer).0 ≡ protocol_error e
    → drain (suc fuel) accepted clock buffer c ≡ (closed, refuse accepted e c)
unfolding drain
drain_refused fuel accepted clock buffer e c h = rw (drain, h) refl

abbrev first : Bytes → ℕ
first [] = 0
first (b ∷ bs) = b

abbrev behind : Bytes → Bytes
behind [] = []
behind (b ∷ bs) = bs

-- The inner loop waits behind some of the commands, or has answered all of them and refused.
record Waits (clock : ℕ → ℕ) (commands : List (List Bytes)) (bad rest : Bytes) (c : Session)
    (r : Turn × Session) : Type 0 where
  before : List (List Bytes)
  after : List (List Bytes)
  split : commands ≡ before ++ after
  left : Bytes
  there : left ++ rest ≡ log_of after ++ (b'*' ∷ bad)
  short : try_parse_command left ≡ (incomplete, left)
  result : r ≡ (waiting left, answered_all clock before c)

drain-Waits :
    (fuel : ℕ) (accepted : Kernel) (clock : ℕ → ℕ) (commands : List (List Bytes))
    (buffer bad rest : Bytes) (c : Session)
    → buffer ++ rest ≡ log_of commands ++ (b'*' ∷ bad)
    → try_parse_command buffer ≡ (incomplete, buffer)
    → Waits clock commands bad rest c (drain (suc fuel) accepted clock buffer c)
drain-Waits fuel accepted clock commands buffer bad rest c e parse = record {
  before = [];
  after = commands;
  split = refl;
  left = buffer;
  there = e;
  short = parse;
  result = drain_incomplete fuel accepted clock buffer buffer c parse;
}

module _ (accepted : Kernel) (clock : ℕ → ℕ) (open_socket : IsOpen accepted) (bad e : Bytes)
    (refused : IsRefused bad e) where
  abbrev Ends : List (List Bytes) → Bytes → Session → Turn × Session → Type 0
  Ends commands rest c r =
      Waits clock commands bad rest c r
      ⊎ (r ≡ (closed, refuse accepted e (answered_all clock commands c)))

  Ends-cons :
      (args : List Bytes) (commands : List (List Bytes)) (rest : Bytes) (c : Session)
      (r r' : Turn × Session)
      → r' ≡ r
      → Ends commands rest (answered clock args c) r
      → Ends (args ∷ commands) rest c r'
  Ends-cons args commands rest c r r' same (inr done) = inr (same ∙ done)
  Ends-cons args commands rest c r r' same (inl w) = inl (record {
    before = args ∷ w.before;
    after = w.after;
    split = ap (λ l. args ∷ l) w.split;
    left = w.left;
    there = w.there;
    short = w.short;
    result = same ∙ w.result;
  })

  drain-Ends :
      (fuel : ℕ) (commands : List (List Bytes)) (buffer rest : Bytes) (c : Session)
      → All IsCommand commands
      → buffer ++ rest ≡ log_of commands ++ (b'*' ∷ bad)
      → length buffer < fuel
      → Ends commands rest c (drain fuel accepted clock buffer c)
  drain-Ends zero commands buffer rest c ok e' h = absurd (omega arith)
  drain-Ends (suc fuel) [] [] rest c ok e' h =
      inl (drain-Waits fuel accepted clock [] [] bad rest c e' nothing_there)
  drain-Ends (suc fuel) [] (b ∷ buffer) rest c ok e' h =
      let star : b ≡ b'*' = ap first e' in
      rw star (elim (refused_start buffer rest bad e (ap behind e') refused) [
        | inl short ↦
            inl
              (drain-Waits fuel accepted clock [] (b'*' ∷ buffer) bad rest c (rw star at e') short)
        | inr same ↦ inr (drain_refused fuel accepted clock (b'*' ∷ buffer) e c same)
      ])
  drain-Ends (suc fuel) (args ∷ commands) buffer rest c ok e' h =
      let e'' = e' ∙ append_assoc (wire args) (log_of commands) (b'*' ∷ bad) in
      elim (append_cut (wire args) (log_of commands ++ (b'*' ∷ bad)) buffer rest (sym e'')) [
        | inl (u, here, more) ↦
            (let parse : try_parse_command buffer ≡ (complete args, u) =
                ap try_parse_command here ∙ try_parse_command-encode args u ok.0 in
              let shorter : length u < fuel =
                omega (arith, h, ap length here, length-append (wire args) u, length-wire args) in
              Ends-cons args commands rest c _ _
                (drain_complete fuel accepted clock args u buffer c open_socket parse)
                (drain-Ends fuel commands u rest (answered clock args c) ok.1 (sym more) shorter))
        | inr (d, u, torn, more) ↦ inl (
            drain-Waits fuel accepted clock (args ∷ commands) buffer bad rest c e'
              (torn_command_left args buffer d u ok.0 torn))
      ]

  handle_client_closed :
      (piece : Bytes) (pieces : List Bytes) (buffer : Bytes) (c c' : Session)
      → drain (suc (length (feed piece buffer))) accepted clock (feed piece buffer) c ≡ (closed, c')
      → handle_client accepted clock (piece ∷ pieces) buffer c ≡ c'
  unfolding handle_client
  handle_client_closed piece pieces buffer c c' h =
      let turn = ap (λ (r : Turn × Session). r.0) h in
      let after = ap (λ (r : Turn × Session). r.1) h in rw (handle_client, turn, after) refl

  -- All of the bytes are in the buffer: the parser does not wait.
  no_wait :
      (commands : List (List Bytes)) (buffer : Bytes)
      → All IsCommand commands
      → buffer ≡ log_of commands ++ (b'*' ∷ bad)
      → try_parse_command buffer ≡ (incomplete, buffer)
      → ⊥
  no_wait [] buffer ok e' h =
      let short : (try_parse_command (b'*' ∷ bad)).0 ≡ incomplete =
        ap (λ (r : Status × Bytes). r.0) (rw e' at h) in
      cc (refused, short)
  no_wait (args ∷ commands) buffer ok e' h =
      let rest = log_of commands ++ (b'*' ∷ bad) in
      let parse : try_parse_command buffer ≡ (complete args, rest) =
        ap try_parse_command (e' ∙ append_assoc (wire args) (log_of commands) (b'*' ∷ bad))
        ∙ try_parse_command-encode args rest ok.0 in
      cc (parse, h)

  refused_from :
      (pieces : List Bytes) (commands : List (List Bytes)) (buffer : Bytes) (c : Session)
      → All IsCommand commands
      → buffer ++ flatten pieces ≡ log_of commands ++ (b'*' ∷ bad)
      → try_parse_command buffer ≡ (incomplete, buffer)
      → handle_client accepted clock pieces buffer c
        ≡ refuse accepted e (answered_all clock commands c)
  unfolding handle_client feed flatten
  refused_from [] commands buffer c ok e' h =
      absurd (no_wait commands buffer ok (sym (append-nil buffer) ∙ e') h)
  refused_from (piece ∷ pieces) commands buffer c ok e' h =
      elim (drain-Ends (suc (length (feed piece buffer))) commands (feed piece buffer)
        (flatten pieces) c ok (append_assoc buffer piece (flatten pieces) ∙ e') (omega arith)) [
          | inr done ↦ handle_client_closed piece pieces buffer c _ done
          | inl w ↦
              handle_client_waiting accepted clock piece pieces buffer w.left c
                (answered_all clock w.before c) w.result
              ∙ refused_from pieces w.after w.left (answered_all clock w.before c)
                  (All-append_right IsCommand w.before w.after (rw w.split at ok)) w.there w.short
              ∙ ap (refuse accepted e) (
                  sym (answered_all-append clock w.before w.after c)
                  ∙ ap (λ l. answered_all clock l c) (sym w.split))
        ]

-- The session behind the reply to a protocol error.
abbrev pub with_error : Bytes → Session → Session
with_error e c = record c { sent = c.sent ++ encode (error (codes "ERR Protocol error: " ++ e)) }

refuse-with_error :
    (accepted : Kernel) (e : Bytes) (c : Session)
    → IsOpen accepted
    → refuse accepted e c ≡ with_error e c
unfolding refuse
refuse-with_error accepted e c open_socket =
    rw
      (send_all-whole accepted (encode (error (codes "ERR Protocol error: " ++ e))) c.sent
        open_socket)
      refl

-- If the bytes that recv delivers, cut in any way, are those of a row of commands within the
-- limits of the parser and then those of a request that starts with a star and that the parser
-- refuses, and each call of send takes a byte at least, HandleClient serves the commands, sends
-- behind their replies the error "ERR Protocol error: " with the words of the parser, whole, and
-- does nothing with what comes behind.
pub handle_client-refused :
    (accepted : Kernel) (clock : ℕ → ℕ) (pieces : List Bytes) (commands : List (List Bytes))
    (bad e : Bytes) (c : Session)
    → IsOpen accepted
    → All IsCommand commands
    → IsRefused bad e
    → flatten pieces ≡ log_of commands ++ (b'*' ∷ bad)
    → handle_client accepted clock pieces [] c ≡ with_error e (answered_all clock commands c)
handle_client-refused accepted clock pieces commands bad e c open_socket ok refused split =
    refused_from accepted clock open_socket bad e refused pieces commands [] c ok split
      nothing_there
    ∙ refuse-with_error accepted e (answered_all clock commands c) open_socket
