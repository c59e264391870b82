-- ===== src/Server/Races.antt =====
-- Two orders of steps that src/server/tcp_server.cpp leaves open.
use redis_cpp.Base.{
  ℕ, ◌≡◌, ◌≢◌, refl, ap, inl, inr, Bool, false, ◌||◌, some, List, [], ◌∷◌, ◌++◌, ◌==◌, Bool-cases,
}
use redis_cpp.Server.Lifecycle.{
  closed, untracked, Client, accepting, ended, running, disconnecting, stopped, TcpServer,
  connected, is_open, erase_fd, ends, accepts, tracks, counts, spawns, untracks, flags, silences,
  copies, waits, returns, Reach, here, next,
}

abbrev pub is_tracked : ℕ → List ℕ → Bool
is_tracked fd [] = false
is_tracked fd (x ∷ xs) = (x == fd) || is_tracked fd xs

is_tracked-erase_fd : (fd : ℕ) (fds : List ℕ) → is_tracked fd (erase_fd fd fds) ≡ false
unfolding erase_fd
is_tracked-erase_fd fd [] = refl
is_tracked-erase_fd fd (x ∷ xs) =
    let rest = is_tracked-erase_fd fd xs in
    elim (Bool-cases (x == fd)) [ inl same ↦ rw same rest | inr other ↦ rw (other, other) rest ]

-- From any state with the accept loop in accept, no client tracked or counted and Stop not
-- called, there are steps by which a client is accepted, Stop runs and returns with 0 clients
-- counted, and the accept loop then starts the thread of that client and ends.
pub late_client :
    (s : TcpServer) (fd listening : ℕ)
    → s.acceptor ≡ accepting
    → s.stopper ≡ running
    → s.listen_fd ≡ some listening
    → s.client_fds ≡ []
    → s.active_clients ≡ 0
    → fd ≢ listening
    → is_open fd s.clients ≡ false
    → (t : TcpServer) × Reach s t
      × (t.stopper ≡ stopped 0)
      × (t.acceptor ≡ ended)
      × (t.clients ≡ connected fd ∷ s.clients)
late_client s fd listening a p l none_tracked none_active new free =
    let r₁ = next here (accepts fd listening a l new free) in
    let r₂ = next r₁ (flags p) in
    let r₃ = next r₂ (silences refl) in
    let r₄ = next r₃ (copies refl) in
    let r₅ = next r₄ (waits (ap disconnecting none_tracked)) in
    let r₆ = next r₅ (returns refl) in
    let r₇ = next r₆ (tracks fd refl) in
    let r₈ = next r₇ (counts fd refl) in
    let r₉ = next r₈ (spawns fd refl) in
    let r = next r₉ (ends refl refl) in (_, r, ap stopped none_active, refl, refl)

-- From any state with a socket that listens, the accept loop in accept, and a client thread that
-- has closed its socket and not yet erased its number, where that number is neither the listening
-- socket's nor that of another client's open socket, there are steps by which a new client is
-- accepted under that number, its thread starts, and the number is not tracked any more.
pub reused_fd :
    (s : TcpServer) (before : List Client) (c : Client) (after : List Client) (listening : ℕ)
    → s.acceptor ≡ accepting
    → s.listen_fd ≡ some listening
    → s.clients ≡ before ++ (c ∷ after)
    → c.phase ≡ closed
    → c.fd ≢ listening
    → is_open c.fd s.clients ≡ false
    → (t : TcpServer) × Reach s t
      × (t.clients ≡ connected c.fd ∷ (before ++ (record c { phase = untracked } ∷ after)))
      × (is_tracked c.fd t.client_fds ≡ false)
reused_fd s before c after listening a l there gone new free =
    let r₁ = next here (accepts c.fd listening a l new free) in
    let r₂ = next r₁ (tracks c.fd refl) in
    let r₃ = next r₂ (counts c.fd refl) in
    let r₄ = next r₃ (spawns c.fd refl) in
    let r =
      next r₄
        (untracks (connected c.fd ∷ before) c after (ap (λ cs. connected c.fd ∷ cs) there) gone) in
    (_, r, refl, is_tracked-erase_fd c.fd (s.client_fds ++ (c.fd ∷ [])))
