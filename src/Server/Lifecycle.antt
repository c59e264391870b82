-- ===== src/Server/Lifecycle.antt =====
-- The threads of src/server/tcp_server.cpp: the one that accepts, one for each client, and the one
-- that calls `Stop`. A step is one access of a thread to what they share, or one call to the
-- system; steps of different threads come in any order.
use redis_cpp.Base.{
  ℕ, suc, ◌-◌, ◌≡◌, ◌≢◌, Bool, true, false, ◌||◌, Option, none, some, List, [], ◌∷◌, ◌++◌,
  if◌then◌else◌, ◌==◌,
}

-- Where a client's thread is: in the loop of `HandleClient`, or in the destructor of `ClientGuard`
-- behind its `close`, or behind its `erase`.
pub data Phase : Type 0 where
  serving closed untracked : Phase

-- `woken` says that `shutdown` was called on the socket.
pub record Client : Type 0 where
  pub fd : ℕ
  pub phase : Phase
  pub woken : Bool

-- Where `AcceptLoop` is: at the test of its flag, in `accept`, or with a new client before its
-- `push_back`, its `fetch_add`, or the start of its thread.
pub data Acceptor : Type 0 where
  testing accepting ended : Acceptor
  accepted tracked counted : ℕ → Acceptor

-- Where `Stop` is: not called, behind the store to the flag, behind the close of the listening
-- socket, at the `shutdown` of the clients that are left of the copied list, in the wait, or
-- back, with the count it has read last.
pub data Stopper : Type 0 where
  running flagged silenced waiting : Stopper
  disconnecting : List ℕ → Stopper
  stopped : ℕ → Stopper

-- `new_woken` says that `shutdown` was called on the socket of the client that the accept loop has
-- in hand.
pub record TcpServer : Type 0 where
  pub listen_fd : Option ℕ
  pub actual_port : ℕ
  pub stop_flag : Bool
  pub active_clients : ℕ
  pub client_fds : List ℕ
  pub clients : List Client
  pub acceptor : Acceptor
  pub new_woken : Bool
  pub stopper : Stopper

-- The constructor.
abbrev pub new_server : TcpServer
new_server = record {
  listen_fd = none;
  actual_port = 0;
  stop_flag = false;
  active_clients = 0;
  client_fds = [];
  clients = [];
  acceptor = testing;
  new_woken = false;
  stopper = running;
}

-- What the system answers to `Start`: the socket, whether it is bound and listened on, and the
-- port that `getsockname` gives.
pub record Network : Type 0 where
  pub socket : Option ℕ
  pub binds : Bool
  pub listens : Bool
  pub bound : Option ℕ

abbrev pub port_of : Option ℕ → ℕ → ℕ
port_of none port = port
port_of (some bound) port = bound

abbrev pub start_on : Network → ℕ → Option ℕ → TcpServer → Bool × TcpServer
start_on net port none s = (false, s)
start_on net port (some fd) s =
    if net.binds
    then if net.listens
      then (true, record s { actual_port = port_of net.bound port; listen_fd = some fd })
      else (false, s)
    else (false, s)

-- `Start`.
unfoldable pub start : Network → ℕ → TcpServer → Bool × TcpServer
start net port s = start_on net port net.socket s

-- `fds.erase(std::remove(fds.begin(), fds.end(), fd), fds.end())`.
unfoldable pub erase_fd : ℕ → List ℕ → List ℕ
erase_fd fd [] = []
erase_fd fd (x ∷ xs) = let rest = erase_fd fd xs in if x == fd then rest else x ∷ rest

abbrev pub connected : ℕ → Client
connected fd = record { fd = fd; phase = serving; woken = false }

-- A number that `accept` may return is that of no open socket.
abbrev pub has_open : ℕ → Client → Bool
has_open fd c = elim c.phase [ serving ↦ c.fd == fd | closed ↦ false | untracked ↦ false ]

abbrev pub is_open : ℕ → List Client → Bool
is_open fd [] = false
is_open fd (c ∷ cs) = has_open fd c || is_open fd cs

-- `shutdown(fd, SHUT_RDWR)`.
abbrev pub wake : ℕ → Client → Client
wake fd c = record c { woken = c.woken || has_open fd c }

abbrev pub wake_all : ℕ → List Client → List Client
wake_all fd [] = []
wake_all fd (c ∷ cs) = wake fd c ∷ wake_all fd cs

-- The socket of a client whose thread has not started.
abbrev pub is_held : ℕ → Acceptor → Bool
is_held fd testing = false
is_held fd accepting = false
is_held fd ended = false
is_held fd (accepted n) = n == fd
is_held fd (tracked n) = n == fd
is_held fd (counted n) = n == fd

-- What ends the loop of `HandleClient`: `recv` returns 0 because `Stop` has shut the socket down,
-- or 0 or less because the client has gone; a protocol error; or a reply that cannot be sent.
pub data Ending (c : Client) : Type 0 where
  shut_down : c.woken ≡ true → Ending c
  hung_up breaks_protocol unsent : Ending c

pub data Step (s : TcpServer) : TcpServer → Type 0 where
  -- `AcceptLoop`
  goes_on : s.acceptor ≡ testing → s.stop_flag ≡ false → Step s (record s { acceptor = accepting })
  ends : s.acceptor ≡ testing → s.stop_flag ≡ true → Step s (record s { acceptor = ended })
  accept_fails :
      s.acceptor ≡ accepting
      → Step s (record s { acceptor = if s.stop_flag then ended else testing })
  accepts :
      (fd listening : ℕ)
      → s.acceptor ≡ accepting
      → s.listen_fd ≡ some listening
      → fd ≢ listening
      → is_open fd s.clients ≡ false
      → Step s (record s { acceptor = accepted fd; new_woken = false })
  tracks :
      (fd : ℕ)
      → s.acceptor ≡ accepted fd
      → Step s (record s { client_fds = s.client_fds ++ (fd ∷ []); acceptor = tracked fd })
  counts :
      (fd : ℕ)
      → s.acceptor ≡ tracked fd
      → Step s (record s { active_clients = suc s.active_clients; acceptor = counted fd })
  spawns :
      (fd : ℕ)
      → s.acceptor ≡ counted fd
      → Step s (record s {
        clients = record (connected fd) { woken = s.new_woken } ∷ s.clients;
        acceptor = testing;
      })
  -- `ClientGuard`
  closes :
      (before : List Client) (c : Client) (after : List Client)
      → s.clients ≡ before ++ (c ∷ after)
      → c.phase ≡ serving
      → Ending c
      → Step s (record s { clients = before ++ (record c { phase = closed } ∷ after) })
  untracks :
      (before : List Client) (c : Client) (after : List Client)
      → s.clients ≡ before ++ (c ∷ after)
      → c.phase ≡ closed
      → Step s (record s {
        clients = before ++ (record c { phase = untracked } ∷ after);
        client_fds = erase_fd c.fd s.client_fds;
      })
  leaves :
      (before : List Client) (c : Client) (after : List Client)
      → s.clients ≡ before ++ (c ∷ after)
      → c.phase ≡ untracked
      → Step s (record s { clients = before ++ after; active_clients = s.active_clients - 1 })
  -- `Stop`
  flags : s.stopper ≡ running → Step s (record s { stop_flag = true; stopper = flagged })
  silences : s.stopper ≡ flagged → Step s (record s { listen_fd = none; stopper = silenced })
  copies : s.stopper ≡ silenced → Step s (record s { stopper = disconnecting s.client_fds })
  disconnects :
      (fd : ℕ) (fds : List ℕ)
      → s.stopper ≡ disconnecting (fd ∷ fds)
      → Step s (record s {
        clients = wake_all fd s.clients;
        new_woken = s.new_woken || is_held fd s.acceptor;
        stopper = disconnecting fds;
      })
  waits : s.stopper ≡ disconnecting [] → Step s (record s { stopper = waiting })
  returns : s.stopper ≡ waiting → Step s (record s { stopper = stopped s.active_clients })

pub data Reach (s : TcpServer) : TcpServer → Type 0 where
  here : Reach s s
  next : {t u : TcpServer} → Reach s t → Step t u → Reach s u
