-- ===== src/Server/Finishing.antt =====
-- The end of `Stop` in src/server/tcp_server.cpp, and the steps that no client has a part in.
use redis_cpp.Base.{ℕ, ◌≡◌, refl, ◌∙◌, ap, Bool, true, false, none, some, List, [], ◌∷◌, arith}
use redis_cpp.Server.Lifecycle.{
  Network, new_server, start, Phase, serving, closed, untracked, Client, ended, Stopper, running,
  flagged, silenced, disconnecting, waiting, stopped, TcpServer, Ending, shut_down, hung_up,
  breaks_protocol, unsent, Step, accept_fails, accepts, closes, untracks, leaves, disconnects,
  waits, returns, Reach, here, next,
}
use redis_cpp.Server.Counting.{start-Consistent}
use redis_cpp.Server.Waking.{AreCovered, IsWaking, Step-IsWaking, Reach-IsWaking}

-- Whether a loop ends whatever its client does.
abbrev pub is_forced : {c : Client} → Ending c → Bool
is_forced (shut_down woken) = true
is_forced hung_up = false
is_forced breaks_protocol = false
is_forced unsent = false

-- A step that takes place whatever the clients do. An `accept` takes a client; it fails for certain
-- once no socket listens.
abbrev pub is_own : {s t : TcpServer} → Step s t → Bool
is_own (closes before c after e p cause) = is_forced cause
is_own (accepts fd listening a l new free) = false
is_own {s} (accept_fails a) = elim s.listen_fd [ none ↦ true | some listening ↦ false ]
is_own _ = true

pub data Own (s : TcpServer) : TcpServer → Type 0 where
  still : Own s s
  onward : {t u : TcpServer} → Own s t → (st : Step t u) → is_own st ≡ true → Own s u

Own-Reach : {s t : TcpServer} → Own s t → Reach s t
Own-Reach still = here
Own-Reach (onward r st own) = next (Own-Reach r) st

Own-trans : {s t u : TcpServer} → Own s t → Own t u → Own s u
Own-trans r still = r
Own-trans r (onward q st own) = onward (Own-trans r q) st own

Reach-trans : {s t u : TcpServer} → Reach s t → Reach t u → Reach s u
Reach-trans r here = r
Reach-trans r (next q st) = next (Reach-trans r q) st

-- A state that the server gets to by itself, and what holds of it.
abbrev Can : TcpServer → (TcpServer → Type 0) → Type 0
Can s P = (t : TcpServer) × Own s t × P t

first :
    {s t : TcpServer} {P : TcpServer → Type 0} (st : Step s t)
    → is_own st ≡ true
    → Can t P
    → Can s P
first st own (u, r, p) = (u, Own-trans (onward still st own) r, p)

-- In the wait, with the accept loop at its end and every client that is served woken.
record IsOver (t : TcpServer) : Type 0 where
  in_wait : t.stopper ≡ waiting
  loop_ended : t.acceptor ≡ ended
  covered : AreCovered [] t.clients

abbrev pub has_returned : Stopper → Bool
has_returned (stopped n) = true
has_returned _ = false

disconnects_all :
    (fds : List ℕ) (s : TcpServer) → s.stopper ≡ disconnecting fds → IsWaking s → Can s IsOver
disconnects_all [] s e h =
    let w = Step-IsWaking (waits e) h in
    first (waits e) refl
      (_, still, record { in_wait = refl; loop_ended = w.ended_loop; covered = w.covered })
disconnects_all (fd ∷ fds) s e h =
    first (disconnects fd fds e) refl
      (disconnects_all fds _ refl (Step-IsWaking (disconnects fd fds e) h))

-- Stop gets to its wait.
stops :
    (st : Stopper) (s : TcpServer)
    → s.stopper ≡ st
    → IsWaking s
    → has_returned st ≡ false
    → Can s IsOver
stops running s e h back = absurd (rw e at h.covered)
stops flagged s e h back = absurd (rw e at h.covered)
stops silenced s e h back = absurd (rw e at h.covered)
stops (disconnecting fds) s e h back = disconnects_all fds s e h
stops waiting s e h back =
    (s, still, record { in_wait = e; loop_ended = h.ended_loop; covered = rw e at h.covered })
stops (stopped n) s e h back = absurd (cc (back))

-- The clients leave, one after the other.
record IsEmpty (t : TcpServer) : Type 0 where
  over : IsOver t
  none_left : t.clients ≡ []

abbrev FirstGone : List Client → TcpServer → Type 0
FirstGone cs t = IsOver t × (t.clients ≡ cs)

IsOver-change :
    {s : TcpServer} (clients : List Client) (fds : List ℕ) (n : ℕ)
    → IsOver s
    → AreCovered [] clients
    → IsOver (record s { clients = clients; client_fds = fds; active_clients = n })
IsOver-change clients fds n o h = record {
  in_wait = o.in_wait;
  loop_ended = o.loop_ended;
  covered = h;
}

untracked_leaves :
    (c : Client) (cs : List Client) (s : TcpServer)
    → c.phase ≡ untracked
    → s.clients ≡ c ∷ cs
    → AreCovered [] cs
    → IsOver s
    → Can s (FirstGone cs)
untracked_leaves c cs s e at_head h o =
    first (leaves [] c cs at_head e) refl (_, still, (IsOver-change _ _ _ o h, refl))

closed_leaves :
    (c : Client) (cs : List Client) (s : TcpServer)
    → c.phase ≡ closed
    → s.clients ≡ c ∷ cs
    → AreCovered [] cs
    → IsOver s
    → Can s (FirstGone cs)
closed_leaves c cs s e at_head h o = first (untracks [] c cs at_head e) refl (
    untracked_leaves (record c { phase = untracked }) cs _ refl refl h
      (IsOver-change _ _ _ o (refl, h)))

-- A client that is served leaves because it is woken.
first_leaves :
    (phase : Phase) (c : Client) (cs : List Client) (s : TcpServer)
    → c.phase ≡ phase
    → s.clients ≡ c ∷ cs
    → AreCovered [] (c ∷ cs)
    → IsOver s
    → Can s (FirstGone cs)
first_leaves untracked c cs s e at_head h o = untracked_leaves c cs s e at_head h.1 o
first_leaves closed c cs s e at_head h o = closed_leaves c cs s e at_head h.1 o
first_leaves serving c cs s e at_head h o =
    let woken : c.woken ≡ true = ground (arith, rw e at h.0) in
    first (closes [] c cs at_head e (shut_down woken)) refl (
      closed_leaves (record c { phase = closed }) cs _ refl refl h.1
        (IsOver-change _ _ _ o (refl, h.1)))

all_leave : (cs : List Client) (s : TcpServer) → s.clients ≡ cs → IsOver s → Can s IsEmpty
all_leave [] s e o = (s, still, record { over = o; none_left = e })
all_leave (c ∷ cs) s e o =
    let (t, r, (over, rest)) = first_leaves c.phase c cs s refl e (rw e at o.covered) o in
    let (u, r', empty) = all_leave cs t rest over in (u, Own-trans r r', empty)

-- Let s be a state that the threads reach after Start, in which the accept loop has ended and the
-- list that Stop has copied holds the number of every client that is served and not woken. From
-- every state that is reached from s and in which Stop has not returned, there are steps that
-- wait for no client to send, to read or to hang up, by which every client thread leaves and Stop
-- returns with the count of clients at 0.
pub can_stop :
    (net : Network) (port : ℕ) {s t : TcpServer} (fds : List ℕ)
    → Reach (start net port new_server).1 s
    → s.acceptor ≡ ended
    → s.stopper ≡ disconnecting fds
    → AreCovered fds s.clients
    → Reach s t
    → has_returned t.stopper ≡ false
    → (u : TcpServer) × Own t u × (u.stopper ≡ stopped 0) × (u.clients ≡ [])
can_stop net port {s} {t} fds begun over copied covered reach not_back =
    let start_waking : IsWaking s = record { ended_loop = over; covered = rw copied covered } in
    let (v, r, last) = stops t.stopper t refl (Reach-IsWaking start_waking reach) not_back in
    let (w, r', empty) = all_leave v.clients v refl last in
    let own = Own-trans r r' in
    let valid =
      start-Consistent net port w (Reach-trans (Reach-trans begun reach) (Own-Reach own)) in
    let nobody : w.active_clients ≡ 0 =
      valid.count ∙ rw (empty.none_left, empty.over.loop_ended) refl in
    (_, onward own (returns empty.over.in_wait) refl, ap stopped nobody, empty.none_left)
