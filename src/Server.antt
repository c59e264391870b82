-- ===== src/Server.antt =====
-- src/server/tcp_server.h and src/server/tcp_server.cpp. The socket of a client is a parameter: what
-- `recv` delivers, piece by piece, until it returns 0 or less, and how much of its data a call of
-- `send` takes.
pub mod Sending
pub mod Requests
pub mod Draining
pub mod Lifecycle
pub mod Counting
pub mod Stopping
pub mod Races
pub mod Waking
pub mod Refusals
pub mod Finishing
use redis_cpp.Base.{
  ℕ, zero, suc, Bool, true, false, List, [], ◌∷◌, ◌++◌, if◌then◌else◌, ◌==◌, length, take, drop,
  codes, Bytes,
}
use redis_cpp.Resp.{RespValue, error, encode}
use redis_cpp.Resp.Parser.{Status, incomplete, complete, protocol_error, feed, try_parse_command}
use redis_cpp.Store.{Store}
use redis_cpp.Dispatcher.Replies.{Outcome}
use redis_cpp.Dispatcher.{dispatch}

-- What a client's thread changes: the store, the commands handed to the log, the bytes that the
-- kernel took, and the number of commands dispatched.
pub record Session : Type 0 where
  pub store : Store
  pub log : List (List Bytes)
  pub sent : Bytes
  pub served : ℕ

-- `accepted sent n` is what a call of `send` with `n` bytes returns when `sent` went before it; 0 is
-- an error. A call that takes bytes makes `sent` longer, so each call has a `sent` of its own.
abbrev pub Kernel : Type 0
Kernel = Bytes → ℕ → ℕ

-- `SendAll`. Each round takes a byte of the data at least, so its length is fuel enough.
unfoldable pub send_loop : ℕ → Kernel → Bytes → Bytes → Bool × Bytes
send_loop fuel accepted [] sent = (true, sent)
send_loop zero accepted (c ∷ rest) sent = (false, sent)
send_loop (suc fuel) accepted (c ∷ rest) sent =
    let n = accepted sent (length (c ∷ rest)) in
    let more = send_loop fuel accepted (drop n (c ∷ rest)) (sent ++ take n (c ∷ rest)) in
    if n == 0 then (false, sent) else more

unfoldable pub send_all : Kernel → Bytes → Bytes → Bool × Bytes
send_all accepted bytes sent = send_loop (length bytes) accepted bytes sent

-- How a client's thread goes on: it returns, or it waits for bytes behind those of the buffer.
pub data Turn : Type 0 where
  closed : Turn
  waiting : Bytes → Turn

abbrev pub logging : Bool → List Bytes → List (List Bytes) → List (List Bytes)
logging true args log = log ++ (args ∷ [])
logging false args log = log

-- `Dispatch(store_, args, aof_)`, before its reply is sent.
abbrev pub executed : List Bytes → Outcome → Session → Session
executed args o c = record c { store = o.store; log = logging o.logged args c.log }

abbrev pub dispatch_session : ℕ → List Bytes → Session → Outcome
dispatch_session now [] c = record { reply = error []; store = c.store; logged = false }
dispatch_session now (name ∷ args) c = dispatch now name args c.store

-- A command, and its reply sent: whether the client is still there, and the session.
unfoldable pub serve : Kernel → (ℕ → ℕ) → List Bytes → Session → Bool × Session
serve accepted clock args c =
    let o = dispatch_session (clock c.served) args c in
    let r = send_all accepted (encode o.reply) c.sent in
    (r.0, record (executed args o c) { sent = r.1; served = suc c.served })

-- The reply to a protocol error.
unfoldable pub refuse : Kernel → Bytes → Session → Session
refuse accepted parse_error c = record c {
  sent =
      (send_all accepted (encode (error (codes "ERR Protocol error: " ++ parse_error))) c.sent).1;
}

-- The inner loop. A command takes a byte of the buffer at least.
unfoldable pub drain : ℕ → Kernel → (ℕ → ℕ) → Bytes → Session → Turn × Session
drain zero accepted clock buffer c = (waiting buffer, c)
drain (suc fuel) accepted clock buffer c = elim (try_parse_command buffer).0 [
  | incomplete ↦ (waiting (try_parse_command buffer).1, c)
  | protocol_error e ↦ (closed, refuse accepted e c)
  | complete args ↦ elim (serve accepted clock args c).0 [
    | true ↦ drain fuel accepted clock (try_parse_command buffer).1 (serve accepted clock args c).1
    | false ↦ (closed, (serve accepted clock args c).1)
  ]
]

-- The loop of `HandleClient` over what `recv` delivers.
unfoldable pub handle_client : Kernel → (ℕ → ℕ) → List Bytes → Bytes → Session → Session
handle_client accepted clock [] buffer c = c
handle_client accepted clock (piece ∷ pieces) buffer c =
    elim (drain (suc (length (feed piece buffer))) accepted clock (feed piece buffer) c).0 [
      | closed ↦ (drain (suc (length (feed piece buffer))) accepted clock (feed piece buffer) c).1
      | waiting left ↦
          handle_client accepted clock pieces left
            (drain (suc (length (feed piece buffer))) accepted clock (feed piece buffer) c).1
    ]
