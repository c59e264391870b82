-- ===== src/Server/Waking.antt =====
-- The `shutdown` calls of `Stop` in src/server/tcp_server.cpp reach every client on the copied list.
use redis_cpp.Base.{
  ℕ, ◌≡◌, refl, Bool, true, false, ◌||◌, not, List, [], ◌∷◌, ◌++◌, arith, ◌==◌, All, All-append,
  All-append_left, All-append_right,
}
use redis_cpp.Server.Lifecycle.{
  Phase, serving, closed, untracked, Client, ended, Stopper, running, flagged, silenced,
  disconnecting, waiting, stopped, TcpServer, wake, wake_all, Step, goes_on, ends, accept_fails,
  accepts, tracks, counts, spawns, closes, untracks, leaves, flags, silences, copies, disconnects,
  waits, returns, Reach, here, next,
}

abbrev pub is_serving : Phase → Bool
is_serving serving = true
is_serving closed = false
is_serving untracked = false

abbrev pub has_fd : ℕ → List ℕ → Bool
has_fd fd [] = false
has_fd fd (x ∷ xs) = x == fd || has_fd fd xs

-- A client that is not served any more, is woken, or is still to be.
abbrev pub is_covered : List ℕ → Client → Bool
is_covered fds c = not (is_serving c.phase) || c.woken || has_fd c.fd fds

abbrev pub AreCovered : List ℕ → List Client → Type 0
AreCovered fds = All (λ c. is_covered fds c ≡ true)

abbrev pub Covers : Stopper → List Client → Type 0
Covers (disconnecting fds) clients = AreCovered fds clients
Covers waiting clients = AreCovered [] clients
Covers (stopped n) clients = AreCovered [] clients
Covers running clients = ⊥
Covers flagged clients = ⊥
Covers silenced clients = ⊥

pub record IsWaking (s : TcpServer) : Type 0 where
  pub ended_loop : s.acceptor ≡ ended
  pub covered : Covers s.stopper s.clients

Covers-map :
    (st : Stopper) (clients clients' : List Client)
    → ((fds : List ℕ) → AreCovered fds clients → AreCovered fds clients')
    → Covers st clients
    → Covers st clients'
Covers-map (disconnecting fds) clients clients' f h = f fds h
Covers-map waiting clients clients' f h = f [] h
Covers-map (stopped n) clients clients' f h = f [] h
Covers-map running clients clients' f h = h
Covers-map flagged clients clients' f h = h
Covers-map silenced clients clients' f h = h

-- A client in its place is taken out, or put back in a phase in which it is not served.
removed :
    (fds : List ℕ) (clients before : List Client) (c : Client) (after : List Client)
    → clients ≡ before ++ (c ∷ after)
    → AreCovered fds clients
    → AreCovered fds (before ++ after)
removed fds clients before c after e h =
    let P = λ (c : Client). is_covered fds c ≡ true in
    let h' = rw e at h in
    All-append P before after (All-append_left P before (c ∷ after) h')
      (All-append_right P before (c ∷ after) h').1

replaced :
    (fds : List ℕ) (clients before : List Client) (c c' : Client) (after : List Client)
    → is_serving c'.phase ≡ false
    → clients ≡ before ++ (c ∷ after)
    → AreCovered fds clients
    → AreCovered fds (before ++ (c' ∷ after))
replaced fds clients before c c' after gone e h =
    let P = λ (c : Client). is_covered fds c ≡ true in
    let h' = rw e at h in
    All-append P before (c' ∷ after) (All-append_left P before (c ∷ after) h')
      (rw gone refl, (All-append_right P before (c ∷ after) h').1)

wakes :
    (fd n : ℕ) (fds : List ℕ) (phase : Phase) (woken : Bool)
    → let c : Client = record { fd = n; phase = phase; woken = woken } in
      is_covered (fd ∷ fds) c ≡ true → is_covered fds (wake fd c) ≡ true
wakes fd n fds serving woken h = ground (arith, h)
wakes fd n fds closed woken h = refl
wakes fd n fds untracked woken h = refl

wake_all-AreCovered :
    (fd : ℕ) (fds : List ℕ) (clients : List Client)
    → AreCovered (fd ∷ fds) clients
    → AreCovered fds (wake_all fd clients)
wake_all-AreCovered fd fds [] h = tt
wake_all-AreCovered fd fds (c ∷ clients) (h, hs) =
    (wakes fd c.fd fds c.phase c.woken h, wake_all-AreCovered fd fds clients hs)

pub Step-IsWaking : {s t : TcpServer} → Step s t → IsWaking s → IsWaking t
Step-IsWaking {s} (goes_on a f) h = absurd (cc (a, h.ended_loop))
Step-IsWaking {s} (ends a f) h = absurd (cc (a, h.ended_loop))
Step-IsWaking {s} (accept_fails a) h = absurd (cc (a, h.ended_loop))
Step-IsWaking {s} (accepts fd listening a l new free) h = absurd (cc (a, h.ended_loop))
Step-IsWaking {s} (tracks fd a) h = absurd (cc (a, h.ended_loop))
Step-IsWaking {s} (counts fd a) h = absurd (cc (a, h.ended_loop))
Step-IsWaking {s} (spawns fd a) h = absurd (cc (a, h.ended_loop))
Step-IsWaking {s} (closes before c after e p cause) h = record {
  ended_loop = h.ended_loop;
  covered =
      Covers-map s.stopper s.clients _
        (λ fds. replaced fds s.clients before c (record c { phase = closed }) after refl e)
        h.covered;
}
Step-IsWaking {s} (untracks before c after e p) h = record {
  ended_loop = h.ended_loop;
  covered =
      Covers-map s.stopper s.clients _
        (λ fds. replaced fds s.clients before c (record c { phase = untracked }) after refl e)
        h.covered;
}
Step-IsWaking {s} (leaves before c after e p) h = record {
  ended_loop = h.ended_loop;
  covered =
      Covers-map s.stopper s.clients _ (λ fds. removed fds s.clients before c after e) h.covered;
}
Step-IsWaking {s} (flags p) h = absurd (rw p at h.covered)
Step-IsWaking {s} (silences p) h = absurd (rw p at h.covered)
Step-IsWaking {s} (copies p) h = absurd (rw p at h.covered)
Step-IsWaking {s} (disconnects fd fds p) h = record {
  ended_loop = h.ended_loop;
  covered = wake_all-AreCovered fd fds s.clients (rw p at h.covered);
}
Step-IsWaking {s} (waits p) h = record { ended_loop = h.ended_loop; covered = rw p at h.covered }
Step-IsWaking {s} (returns p) h = record { ended_loop = h.ended_loop; covered = rw p at h.covered }

pub Reach-IsWaking : {s t : TcpServer} → IsWaking s → Reach s t → IsWaking t
Reach-IsWaking h here = h
Reach-IsWaking h (next r st) = Step-IsWaking st (Reach-IsWaking h r)

-- Whether a stopper is behind the calls of `shutdown`.
abbrev pub has_disconnected : Stopper → Bool
has_disconnected waiting = true
has_disconnected (stopped n) = true
has_disconnected _ = false

all_covered :
    (st : Stopper) (clients : List Client)
    → has_disconnected st ≡ true
    → Covers st clients
    → AreCovered [] clients
all_covered waiting clients h covered = covered
all_covered (stopped n) clients h covered = covered
all_covered running clients h covered = absurd (cc (h))
all_covered flagged clients h covered = absurd (cc (h))
all_covered silenced clients h covered = absurd (cc (h))
all_covered (disconnecting fds) clients h covered = absurd (cc (h))

abbrev pub IsWoken : Client → Type 0
IsWoken c = c.phase ≡ serving → c.woken ≡ true

AreCovered-IsWoken : (clients : List Client) → AreCovered [] clients → All IsWoken clients
AreCovered-IsWoken [] h = tt
AreCovered-IsWoken (c ∷ clients) (h, hs) =
    (λ e. ground (arith, rw e at h), AreCovered-IsWoken clients hs)

-- From a state in which the accept loop has ended and the list that Stop has copied holds the
-- number of every client that is served and not woken, in any order of steps, once Stop has
-- called shutdown for the whole list every client that is still served is woken.
pub all-IsWoken :
    {s t : TcpServer} (fds : List ℕ)
    → s.acceptor ≡ ended
    → s.stopper ≡ disconnecting fds
    → AreCovered fds s.clients
    → Reach s t
    → has_disconnected t.stopper ≡ true
    → All IsWoken t.clients
all-IsWoken {s} {t} fds over copied covered reach done =
    let start : IsWaking s = record { ended_loop = over; covered = rw copied covered } in
    AreCovered-IsWoken t.clients
      (all_covered t.stopper t.clients done (Reach-IsWaking start reach).covered)
