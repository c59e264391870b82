-- ===== src/Server/Counting.antt =====
-- What the threads of src/server/tcp_server.cpp keep: the count of clients, and what `Stop` has
-- done.
use redis_cpp.Base.{
  ℕ, suc, ◌+◌, ◌≡◌, refl, ap, Bool, true, false, Option, none, some, List, [], ◌∷◌, ◌++◌, arith,
  if◌then◌else◌, inl, inr, Bool-cases, length, length-append,
}
use redis_cpp.Server.Lifecycle.{
  Network, new_server, start_on, start, closed, untracked, Client, Acceptor, testing, accepting,
  ended, accepted, tracked, counted, Stopper, running, flagged, TcpServer, wake_all, Step, goes_on,
  ends, accept_fails, accepts, tracks, counts, spawns, closes, untracks, leaves, flags, silences,
  copies, disconnects, waits, returns, Reach, here, next,
}

-- A client that is counted before its thread starts.
abbrev pub uncounted : Acceptor → ℕ
uncounted (counted fd) = 1
uncounted a = 0

-- A client whose thread is yet to start.
abbrev pub coming : Acceptor → ℕ
coming testing = 0
coming accepting = 0
coming ended = 0
coming (accepted fd) = 1
coming (tracked fd) = 1
coming (counted fd) = 1

abbrev pub is_flagged : Stopper → Bool
is_flagged running = false
is_flagged s = true

abbrev pub is_silenced : Stopper → Bool
is_silenced running = false
is_silenced flagged = false
is_silenced s = true

pub record Consistent (s : TcpServer) : Type 0 where
  pub count : s.active_clients ≡ length s.clients + uncounted s.acceptor
  pub flag : s.stop_flag ≡ is_flagged s.stopper
  pub silence : is_silenced s.stopper ≡ true → s.listen_fd ≡ none

pub length-wake_all : (fd : ℕ) (cs : List Client) → length (wake_all fd cs) ≡ length cs
length-wake_all fd [] = refl
length-wake_all fd (c ∷ cs) = ap suc (length-wake_all fd cs)

pub length-replaced :
    (before after cs : List Client) (c d : Client)
    → cs ≡ before ++ (c ∷ after)
    → length (before ++ (d ∷ after)) ≡ length cs
length-replaced before after cs c d e =
    omega (arith, ap length e, length-append before (c ∷ after), length-append before (d ∷ after))

pub length-removed :
    (before after cs : List Client) (c : Client)
    → cs ≡ before ++ (c ∷ after)
    → suc (length (before ++ after)) ≡ length cs
length-removed before after cs c e =
    omega (arith, ap length e, length-append before (c ∷ after), length-append before after)

uncounted-back : (b : Bool) → uncounted (if b then ended else testing) ≡ 0
uncounted-back true = refl
uncounted-back false = refl

pub Step-Consistent : {s t : TcpServer} → Step s t → Consistent s → Consistent t
Step-Consistent (goes_on a f) h = record {
  count = rw a at h.count;
  flag = h.flag;
  silence = h.silence;
}
Step-Consistent (ends a f) h = record {
  count = rw a at h.count;
  flag = h.flag;
  silence = h.silence;
}
Step-Consistent {s} (accept_fails a) h = record {
  count = rw (uncounted-back s.stop_flag) (rw a at h.count);
  flag = h.flag;
  silence = h.silence;
}
Step-Consistent (accepts fd listening a l new free) h = record {
  count = rw a at h.count;
  flag = h.flag;
  silence = h.silence;
}
Step-Consistent (tracks fd a) h = record {
  count = rw a at h.count;
  flag = h.flag;
  silence = h.silence;
}
Step-Consistent (counts fd a) h =
    let count = rw a at h.count in
    record { count = omega (arith, count); flag = h.flag; silence = h.silence }
Step-Consistent (spawns fd a) h =
    let count = rw a at h.count in
    record { count = omega (arith, count); flag = h.flag; silence = h.silence }
Step-Consistent {s} (closes before c after e p cause) h = record {
  count = rw (length-replaced before after s.clients c (record c { phase = closed }) e) h.count;
  flag = h.flag;
  silence = h.silence;
}
Step-Consistent {s} (untracks before c after e p) h = record {
  count = rw (length-replaced before after s.clients c (record c { phase = untracked }) e) h.count;
  flag = h.flag;
  silence = h.silence;
}
Step-Consistent {s} (leaves before c after e p) h = record {
  count = omega (arith, h.count, length-removed before after s.clients c e);
  flag = h.flag;
  silence = h.silence;
}
Step-Consistent (flags p) h = record {
  count = h.count;
  flag = refl;
  silence = λ e. absurd (cc (e));
}
Step-Consistent (silences p) h = record {
  count = h.count;
  flag = rw p at h.flag;
  silence = λ e. refl;
}
Step-Consistent (copies p) h = record {
  count = h.count;
  flag = rw p at h.flag;
  silence = λ e. h.silence (rw p refl);
}
Step-Consistent {s} (disconnects fd fds p) h = record {
  count = rw (length-wake_all fd s.clients) h.count;
  flag = rw p at h.flag;
  silence = λ e. h.silence (rw p refl);
}
Step-Consistent (waits p) h = record {
  count = h.count;
  flag = rw p at h.flag;
  silence = λ e. h.silence (rw p refl);
}
Step-Consistent (returns p) h = record {
  count = h.count;
  flag = rw p at h.flag;
  silence = λ e. h.silence (rw p refl);
}

pub Reach-Consistent : {s t : TcpServer} → Consistent s → Reach s t → Consistent t
Reach-Consistent h here = h
Reach-Consistent h (next r st) = Step-Consistent st (Reach-Consistent h r)

started-Consistent :
    (net : Network) (port : ℕ) (o : Option ℕ) → Consistent (start_on net port o new_server).1
started-Consistent net port none = record {
  count = refl;
  flag = refl;
  silence = λ e. absurd (cc (e));
}
started-Consistent net port (some fd) = elim (Bool-cases net.binds) [
  | inr shut ↦ rw shut (record { count = refl; flag = refl; silence = λ e. absurd (cc (e)) })
  | inl bound ↦ elim (Bool-cases net.listens) [
    | inr deaf ↦
        rw (bound, deaf) (record { count = refl; flag = refl; silence = λ e. absurd (cc (e)) })
    | inl heard ↦
        rw (bound, heard) (record { count = refl; flag = refl; silence = λ e. absurd (cc (e)) })
  ]
]

-- In every state that the threads of a server reach after Start, in any order of their steps, the
-- count of clients is the number of client threads that have not left, with one more where a
-- client is counted and its thread not yet started, the stop flag is set exactly from the first
-- step of Stop on, and from the second on no socket listens.
pub start-Consistent :
    (net : Network) (port : ℕ) (t : TcpServer)
    → Reach (start net port new_server).1 t
    → Consistent t
unfolding start
start-Consistent net port t r = Reach-Consistent (started-Consistent net port net.socket) r
