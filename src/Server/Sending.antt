-- ===== src/Server/Sending.antt =====
-- `SendAll` of src/server/tcp_server.cpp.
use mathlib.Core.List.{append_assoc}
use redis_cpp.Base.{
  ℕ, zero, suc, ◌≤◌, ◌<◌, ◌≡◌, sym, ◌∙◌, ap, true, false, [], ◌∷◌, ◌++◌, arith, ◌==◌, length, take,
  drop, append-nil, take-drop, length-drop, Bytes,
}
use redis_cpp.Server.{Kernel, send_loop, send_all}

-- A client that stays: each call of `send` takes something.
abbrev pub IsOpen : Kernel → Type 0
IsOpen accepted = (sent : Bytes) (n : ℕ) → 0 < n → 0 < accepted sent n

send_loop-whole :
    (fuel : ℕ) (accepted : Kernel) (bytes sent : Bytes)
    → IsOpen accepted
    → length bytes ≤ fuel
    → send_loop fuel accepted bytes sent ≡ (true, sent ++ bytes)
unfolding send_loop
send_loop-whole fuel accepted [] sent ok h = ap (λ (s : Bytes). (true, s)) (sym (append-nil sent))
send_loop-whole zero accepted (c ∷ rest) sent ok h = absurd (omega arith)
send_loop-whole (suc fuel) accepted (c ∷ rest) sent ok h =
    let bytes = c ∷ rest in
    let n = accepted sent (length bytes) in
    let some_taken : 0 < n = ok sent (length bytes) (omega arith) in
    let going : (n == 0) ≡ false = ground arith in
    rw going (
      send_loop-whole fuel accepted (drop n bytes) (sent ++ take n bytes) ok
        (omega (arith, length-drop n bytes))
      ∙ ap (λ (s : Bytes). (true, s))
          (append_assoc sent (take n bytes) (drop n bytes)
            ∙ ap (λ (l : Bytes). sent ++ l) (take-drop n bytes)))

-- To a client that stays all of the data is sent.
pub send_all-whole :
    (accepted : Kernel) (bytes sent : Bytes)
    → IsOpen accepted
    → send_all accepted bytes sent ≡ (true, sent ++ bytes)
unfolding send_all
send_all-whole accepted bytes sent ok =
    send_loop-whole (length bytes) accepted bytes sent ok (omega arith)
