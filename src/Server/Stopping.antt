-- ===== src/Server/Stopping.antt =====
-- `Stop` and the end of `AcceptLoop` in src/server/tcp_server.cpp.
use redis_cpp.Base.{
  ℕ, ◌+◌, ◌≤◌, ◌≡◌, refl, sym, ◌∙◌, ap, Bool, true, false, List, [], ◌∷◌, ◌++◌, arith,
  if◌then◌else◌, length,
}
use redis_cpp.Server.Lifecycle.{
  closed, untracked, Client, testing, ended, TcpServer, wake_all, Step, goes_on, ends, accept_fails,
  accepts, tracks, counts, spawns, closes, untracks, leaves, flags, silences, copies, disconnects,
  waits, returns, Reach, here, next,
}
use redis_cpp.Server.Counting.{
  coming, is_silenced, Consistent, Step-Consistent, length-wake_all, length-replaced,
  length-removed,
}

-- The accept loop has ended, and no client is left.
record IsQuiet (s : TcpServer) : Type 0 where
  ended_loop : s.acceptor ≡ ended
  empty : s.clients ≡ []

nobody :
    {A : Type 0} (cs before after : List Client) (c : Client)
    → cs ≡ []
    → cs ≡ before ++ (c ∷ after)
    → A
nobody cs [] after c e h = absurd (cc (e, h))
nobody cs (b ∷ before) after c e h = absurd (cc (e, h))

Step-IsQuiet : {s t : TcpServer} → Step s t → IsQuiet s → IsQuiet t
Step-IsQuiet {s} (goes_on a f) h = absurd (cc (a, h.ended_loop))
Step-IsQuiet {s} (ends a f) h = absurd (cc (a, h.ended_loop))
Step-IsQuiet {s} (accept_fails a) h = absurd (cc (a, h.ended_loop))
Step-IsQuiet {s} (accepts fd listening a l new free) h = absurd (cc (a, h.ended_loop))
Step-IsQuiet {s} (tracks fd a) h = absurd (cc (a, h.ended_loop))
Step-IsQuiet {s} (counts fd a) h = absurd (cc (a, h.ended_loop))
Step-IsQuiet {s} (spawns fd a) h = absurd (cc (a, h.ended_loop))
Step-IsQuiet {s} (closes before c after e p cause) h = nobody s.clients before after c h.empty e
Step-IsQuiet {s} (untracks before c after e p) h = nobody s.clients before after c h.empty e
Step-IsQuiet {s} (leaves before c after e p) h = nobody s.clients before after c h.empty e
Step-IsQuiet (flags p) h = record { ended_loop = h.ended_loop; empty = h.empty }
Step-IsQuiet (silences p) h = record { ended_loop = h.ended_loop; empty = h.empty }
Step-IsQuiet (copies p) h = record { ended_loop = h.ended_loop; empty = h.empty }
Step-IsQuiet (disconnects fd fds p) h = record {
  ended_loop = h.ended_loop;
  empty = ap (wake_all fd) h.empty;
}
Step-IsQuiet (waits p) h = record { ended_loop = h.ended_loop; empty = h.empty }
Step-IsQuiet (returns p) h = record { ended_loop = h.ended_loop; empty = h.empty }

Reach-IsQuiet : {s t : TcpServer} → IsQuiet s → Reach s t → IsQuiet t
Reach-IsQuiet h here = h
Reach-IsQuiet h (next r st) = Step-IsQuiet st (Reach-IsQuiet h r)

counted_none : (clients : List Client) (n : ℕ) → 0 ≡ length clients + n → clients ≡ []
counted_none [] n h = refl
counted_none (c ∷ clients) n h = absurd (omega arith)

-- From a consistent state in which the accept loop has ended and the count of clients is 0, no
-- client thread is there or starts again, whatever steps follow.
pub nothing_left :
    (s t : TcpServer)
    → Consistent s
    → s.acceptor ≡ ended
    → s.active_clients ≡ 0
    → Reach s t
    → (t.clients ≡ []) × (t.acceptor ≡ ended)
nothing_left s t h loop_ended none_active r =
    let quiet : IsQuiet s = record {
      ended_loop = loop_ended;
      empty = counted_none s.clients _ (sym none_active ∙ h.count);
    } in
    let q = Reach-IsQuiet quiet r in (q.empty, q.ended_loop)

-- Behind the close of the listening socket.
record Silent (bound : ℕ) (s : TcpServer) : Type 0 where
  ok : Consistent s
  shut : is_silenced s.stopper ≡ true
  few : length s.clients + coming s.acceptor ≤ bound

coming-back : (b : Bool) → coming (if b then ended else testing) ≡ 0
coming-back true = refl
coming-back false = refl

Step-few :
    {s t : TcpServer} (bound : ℕ)
    → Step s t
    → Silent bound s
    → length t.clients + coming t.acceptor ≤ bound
Step-few bound (goes_on a f) h = rw a at h.few
Step-few bound (ends a f) h = rw a at h.few
Step-few {s} bound (accept_fails a) h = rw (coming-back s.stop_flag) (rw a at h.few)
Step-few {s} bound (accepts fd listening a l new free) h = absurd (cc (l, h.ok.silence h.shut))
Step-few bound (tracks fd a) h = rw a at h.few
Step-few bound (counts fd a) h = rw a at h.few
Step-few bound (spawns fd a) h = let few = rw a at h.few in omega (arith, few)
Step-few {s} bound (closes before c after e p cause) h =
    rw (length-replaced before after s.clients c (record c { phase = closed }) e) h.few
Step-few {s} bound (untracks before c after e p) h =
    rw (length-replaced before after s.clients c (record c { phase = untracked }) e) h.few
Step-few {s} bound (leaves before c after e p) h =
    omega (arith, h.few, length-removed before after s.clients c e)
Step-few bound (flags p) h = h.few
Step-few bound (silences p) h = h.few
Step-few bound (copies p) h = h.few
Step-few {s} bound (disconnects fd fds p) h = rw (length-wake_all fd s.clients) h.few
Step-few bound (waits p) h = h.few
Step-few bound (returns p) h = h.few

Step-shut :
    {s t : TcpServer} → Step s t → is_silenced s.stopper ≡ true → is_silenced t.stopper ≡ true
Step-shut (goes_on a f) h = h
Step-shut (ends a f) h = h
Step-shut (accept_fails a) h = h
Step-shut (accepts fd listening a l new free) h = h
Step-shut (tracks fd a) h = h
Step-shut (counts fd a) h = h
Step-shut (spawns fd a) h = h
Step-shut (closes before c after e p cause) h = h
Step-shut (untracks before c after e p) h = h
Step-shut (leaves before c after e p) h = h
Step-shut (flags p) h = absurd (cc (rw p at h))
Step-shut (silences p) h = refl
Step-shut (copies p) h = refl
Step-shut (disconnects fd fds p) h = refl
Step-shut (waits p) h = refl
Step-shut (returns p) h = refl

Reach-Silent : {s t : TcpServer} (bound : ℕ) → Silent bound s → Reach s t → Silent bound t
Reach-Silent bound h here = h
Reach-Silent bound h (next r st) =
    let before = Reach-Silent bound h r in
    record {
      ok = Step-Consistent st before.ok;
      shut = Step-shut st before.shut;
      few = Step-few bound st before;
    }

-- From a consistent state in which Stop has closed the listening socket on, the number of client
-- threads, with one more where the accept loop has a client whose thread has not started, never
-- grows.
pub silenced_bound :
    (s t : TcpServer)
    → Consistent s
    → is_silenced s.stopper ≡ true
    → Reach s t
    → length t.clients + coming t.acceptor ≤ length s.clients + coming s.acceptor
silenced_bound s t h shut r =
    (Reach-Silent (length s.clients + coming s.acceptor)
      (record { ok = h; shut = shut; few = omega arith }) r).few
