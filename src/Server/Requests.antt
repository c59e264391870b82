-- ===== src/Server/Requests.antt =====
-- `HandleClient` of src/server/tcp_server.cpp: requests are served in order, however they arrive.
use mathlib.Core.List.{append_assoc, flatten}
use redis_cpp.Base.{
  All-append_right, append_cut, ℕ, zero, suc, ◌<◌, ◌≡◌, refl, sym, ◌∙◌, ap, inl, inr, Bool, true,
  List, [], ◌∷◌, ◌++◌, arith, length, length-append, append-nil, Bytes, All,
}
use redis_cpp.Resp.{encode}
use redis_cpp.Resp.Parser.{Status, incomplete, complete, feed, try_parse_command}
use redis_cpp.Resp.RoundTrip.{IsCommand, wire, try_parse_command-encode}
use redis_cpp.Aof.Replay.{log_of, torn_command_left, length-wire}
use redis_cpp.Server.{
  Kernel, Session, Turn, waiting, executed, dispatch_session, serve, drain, handle_client,
}
use redis_cpp.Server.Sending.{IsOpen, send_all-whole}

-- A command served to a client that stays: the whole reply is sent.
abbrev pub answered : (ℕ → ℕ) → List Bytes → Session → Session
answered clock args c =
    let o = dispatch_session (clock c.served) args c in
    record (executed args o c) { sent = c.sent ++ encode o.reply; served = suc c.served }

abbrev pub answered_all : (ℕ → ℕ) → List (List Bytes) → Session → Session
answered_all clock [] c = c
answered_all clock (args ∷ commands) c = answered_all clock commands (answered clock args c)

serve-answered :
    (accepted : Kernel) (clock : ℕ → ℕ) (args : List Bytes) (c : Session)
    → IsOpen accepted
    → serve accepted clock args c ≡ (true, answered clock args c)
unfolding serve
serve-answered accepted clock args c ok =
    rw (send_all-whole accepted (encode (dispatch_session (clock c.served) args c).reply) c.sent ok)
      refl

-- A round of the inner loop.
pub drain_complete :
    (fuel : ℕ) (accepted : Kernel) (clock : ℕ → ℕ) (args : List Bytes) (rest buffer : Bytes)
    (c : Session)
    → IsOpen accepted
    → try_parse_command buffer ≡ (complete args, rest)
    → drain (suc fuel) accepted clock buffer c
      ≡ drain fuel accepted clock rest (answered clock args c)
unfolding drain
drain_complete fuel accepted clock args rest buffer c ok h =
    let done : (try_parse_command buffer).0 ≡ complete args = ap (λ (r : Status × Bytes). r.0) h in
    let left : (try_parse_command buffer).1 ≡ rest = ap (λ (r : Status × Bytes). r.1) h in
    let s = serve-answered accepted clock args c ok in
    let here : (serve accepted clock args c).0 ≡ true = ap (λ (r : Bool × Session). r.0) s in
    let then' : (serve accepted clock args c).1 ≡ answered clock args c =
      ap (λ (r : Bool × Session). r.1) s in
    rw (drain, done, here, left, then') refl

pub drain_incomplete :
    (fuel : ℕ) (accepted : Kernel) (clock : ℕ → ℕ) (rest buffer : Bytes) (c : Session)
    → try_parse_command buffer ≡ (incomplete, rest)
    → drain (suc fuel) accepted clock buffer c ≡ (waiting rest, c)
unfolding drain
drain_incomplete fuel accepted clock rest buffer c h =
    let done : (try_parse_command buffer).0 ≡ incomplete = ap (λ (r : Status × Bytes). r.0) h in
    let left : (try_parse_command buffer).1 ≡ rest = ap (λ (r : Status × Bytes). r.1) h in
    rw (drain, done, left) refl

-- What the inner loop does with the beginning of a row of requests: those that are there whole are
-- answered, and the rest of the bytes waits.
record Drained (clock : ℕ → ℕ) (commands : List (List Bytes)) (rest : Bytes) (c : Session)
    (r : Turn × Session) : Type 0 where
  before : List (List Bytes)
  after : List (List Bytes)
  split : commands ≡ before ++ after
  left : Bytes
  there : left ++ rest ≡ log_of after
  short : try_parse_command left ≡ (incomplete, left)
  result : r ≡ (waiting left, answered_all clock before c)

pub nothing_there : try_parse_command [] ≡ (incomplete, [])
unfolding try_parse_command
nothing_there = refl

drain-Drained :
    (fuel : ℕ) (accepted : Kernel) (clock : ℕ → ℕ) (commands : List (List Bytes))
    (buffer rest : Bytes) (c : Session)
    → IsOpen accepted
    → All IsCommand commands
    → buffer ++ rest ≡ log_of commands
    → length buffer < fuel
    → Drained clock commands rest c (drain fuel accepted clock buffer c)
drain-Drained zero accepted clock commands buffer rest c ok commands_ok e h = absurd (omega arith)
drain-Drained (suc fuel) accepted clock [] [] rest c ok commands_ok e h = record {
  before = [];
  after = [];
  split = refl;
  left = [];
  there = e;
  short = nothing_there;
  result = drain_incomplete fuel accepted clock [] [] c nothing_there;
}
drain-Drained (suc fuel) accepted clock [] (b ∷ buffer) rest c ok commands_ok e h = absurd (cc (e))
drain-Drained (suc fuel) accepted clock (args ∷ commands) buffer rest c ok commands_ok e h =
    elim (append_cut (wire args) (log_of commands) buffer rest (sym e)) [
      | inl (u, here, more) ↦
          (let parse : try_parse_command buffer ≡ (complete args, u) =
              ap try_parse_command here ∙ try_parse_command-encode args u commands_ok.0 in
            let shorter : length u < fuel =
              omega (arith, h, ap length here, length-append (wire args) u, length-wire args) in
            let ih =
              drain-Drained fuel accepted clock commands u rest (answered clock args c) ok
                commands_ok.1 (sym more) shorter in
            record {
              before = args ∷ ih.before;
              after = ih.after;
              split = ap (λ l. args ∷ l) ih.split;
              left = ih.left;
              there = ih.there;
              short = ih.short;
              result = drain_complete fuel accepted clock args u buffer c ok parse ∙ ih.result;
            })
      | inr (d, u, torn, more) ↦
          (let parse = torn_command_left args buffer d u commands_ok.0 torn in
            record {
              before = [];
              after = args ∷ commands;
              split = refl;
              left = buffer;
              there = e;
              short = parse;
              result = drain_incomplete fuel accepted clock buffer buffer c parse;
            })
    ]

pub answered_all-append :
    (clock : ℕ → ℕ) (before after : List (List Bytes)) (c : Session)
    → answered_all clock (before ++ after) c
      ≡ answered_all clock after (answered_all clock before c)
answered_all-append clock [] after c = refl
answered_all-append clock (args ∷ before) after c =
    answered_all-append clock before after (answered clock args c)

-- A whole request does not wait.
waits_for_more :
    (commands : List (List Bytes)) (buffer : Bytes)
    → All IsCommand commands
    → buffer ≡ log_of commands
    → try_parse_command buffer ≡ (incomplete, buffer)
    → commands ≡ []
waits_for_more [] buffer ok e h = refl
waits_for_more (args ∷ commands) buffer ok e h =
    let parse : try_parse_command buffer ≡ (complete args, log_of commands) =
      ap try_parse_command e ∙ try_parse_command-encode args (log_of commands) ok.0 in
    absurd (cc (parse, h))

pub handle_client_waiting :
    (accepted : Kernel) (clock : ℕ → ℕ) (piece : Bytes) (pieces : List Bytes) (buffer left : Bytes)
    (c c' : Session)
    → drain (suc (length (feed piece buffer))) accepted clock (feed piece buffer) c
      ≡ (waiting left, c')
    → handle_client accepted clock (piece ∷ pieces) buffer c
      ≡ handle_client accepted clock pieces left c'
unfolding handle_client
handle_client_waiting accepted clock piece pieces buffer left c c' h =
    let turn = ap (λ (r : Turn × Session). r.0) h in
    let after = ap (λ (r : Turn × Session). r.1) h in rw (handle_client, turn, after) refl

handle_client-from :
    (accepted : Kernel) (clock : ℕ → ℕ) (pieces : List Bytes) (commands : List (List Bytes))
    (buffer : Bytes) (c : Session)
    → IsOpen accepted
    → All IsCommand commands
    → buffer ++ flatten pieces ≡ log_of commands
    → try_parse_command buffer ≡ (incomplete, buffer)
    → handle_client accepted clock pieces buffer c ≡ answered_all clock commands c
unfolding handle_client feed flatten
handle_client-from accepted clock [] commands buffer c ok commands_ok e h =
    let none = waits_for_more commands buffer commands_ok (sym (append-nil buffer) ∙ e) h in
    ap (λ l. answered_all clock l c) (sym none)
handle_client-from accepted clock (piece ∷ pieces) commands buffer c ok commands_ok e h =
    let d =
      drain-Drained (suc (length (feed piece buffer))) accepted clock commands (feed piece buffer)
        (flatten pieces) c ok commands_ok (append_assoc buffer piece (flatten pieces) ∙ e)
        (omega arith) in
    handle_client_waiting accepted clock piece pieces buffer d.left c
      (answered_all clock d.before c) d.result
    ∙ handle_client-from accepted clock pieces d.after d.left (answered_all clock d.before c) ok
        (All-append_right IsCommand d.before d.after (rw d.split at commands_ok)) d.there d.short
    ∙ sym (answered_all-append clock d.before d.after c)
    ∙ ap (λ l. answered_all clock l c) (sym d.split)

-- However the calls of recv cut the bytes of a row of commands within the limits of the parser,
-- and however few bytes a call of send takes, as long as it takes one, HandleClient dispatches
-- the commands in order, each once, and sends each reply whole before the next command.
pub handle_client-answered :
    (accepted : Kernel) (clock : ℕ → ℕ) (pieces : List Bytes) (commands : List (List Bytes))
    (c : Session)
    → IsOpen accepted
    → All IsCommand commands
    → flatten pieces ≡ log_of commands
    → handle_client accepted clock pieces [] c ≡ answered_all clock commands c
handle_client-answered accepted clock pieces commands c ok commands_ok e =
    handle_client-from accepted clock pieces commands [] c ok commands_ok e nothing_there
