-- ===== src/Server/Draining.antt =====
-- The inner loop of `HandleClient` in src/server/tcp_server.cpp and the loop of `LoadAof` in
-- src/server/aof.cpp come to an end of their own.
use redis_cpp.Base.{ℕ, zero, suc, ◌<◌, ◌≡◌, refl, ap, inl, inr, arith, Bool-cases, length, Bytes}
use redis_cpp.Resp.Parser.{Status, try_parse_command}
use redis_cpp.Resp.Ends.{Status-cases}
use redis_cpp.Resp.Shrinking.{try_parse_command-Takes}
use redis_cpp.Store.{Store}
use redis_cpp.Aof.{dispatch_args, replay}
use redis_cpp.Server.{Kernel, Session, serve, drain}

-- The inner loop of HandleClient does the same with any fuel above the length of the buffer: each
-- command takes a byte of it at least, so the loop ends.
pub drain_enough :
    (n m : ℕ) (accepted : Kernel) (clock : ℕ → ℕ) (buffer : Bytes) (c : Session)
    → length buffer < n
    → length buffer < m
    → drain n accepted clock buffer c ≡ drain m accepted clock buffer c
unfolding drain
drain_enough zero m accepted clock buffer c h k = absurd (omega arith)
drain_enough (suc n) zero accepted clock buffer c h k = absurd (omega arith)
drain_enough (suc n) (suc m) accepted clock buffer c h k =
    elim (Status-cases (try_parse_command buffer)) [
      | inl (rest, e) ↦ rw (drain, ap (λ (r : Status × Bytes). r.0) e) refl
      | inr (inr (p, rest, e)) ↦ rw (drain, ap (λ (r : Status × Bytes). r.0) e) refl
      | inr (inl (args, rest, e)) ↦
          (let done = ap (λ (r : Status × Bytes). r.0) e in
            let left = ap (λ (r : Status × Bytes). r.1) e in
            let shorter : length rest < length buffer = rw e at (try_parse_command-Takes buffer) in
            elim (Bool-cases (serve accepted clock args c).0) [
              | inl there ↦
                  let ih =
                    drain_enough n m accepted clock rest (serve accepted clock args c).1
                      (omega (arith, shorter, h)) (omega (arith, shorter, k)) in
                  rw (drain, done, there, left) ih
              | inr lost ↦ rw (drain, done, lost) refl
            ])
    ]

-- placeholder
pub replay_enough :
    (n m i : ℕ) (clock : ℕ → ℕ) (buffer : Bytes) (s : Store)
    → length buffer < n
    → length buffer < m
    → replay n i clock buffer s ≡ replay m i clock buffer s
unfolding replay
replay_enough zero m i clock buffer s h k = absurd (omega arith)
replay_enough (suc n) zero i clock buffer s h k = absurd (omega arith)
replay_enough (suc n) (suc m) i clock buffer s h k =
    elim (Status-cases (try_parse_command buffer)) [
      | inl (rest, e) ↦ rw (replay, ap (λ (r : Status × Bytes). r.0) e) refl
      | inr (inr (p, rest, e)) ↦ rw (replay, ap (λ (r : Status × Bytes). r.0) e) refl
      | inr (inl (args, rest, e)) ↦
          (let done = ap (λ (r : Status × Bytes). r.0) e in
            let left = ap (λ (r : Status × Bytes). r.1) e in
            let shorter : length rest < length buffer = rw e at (try_parse_command-Takes buffer) in
            let ih =
              replay_enough n m (suc i) clock rest (dispatch_args (clock i) args s)
                (omega (arith, shorter, h)) (omega (arith, shorter, k)) in
            rw (replay, done, left) ih)
    ]
