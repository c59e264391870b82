-- ===== src/Tests/Threads.antt =====
-- Threads that share a server of src/server/tcp_server.cpp, a store, or a log.
use redis_cpp.Server.Finishing.{Own, can_stop}
use redis_cpp.Dispatcher.Sections as Sections
use redis_cpp.Dispatcher.Sections.{Sections, set_ex, set_interrupted}
use redis_cpp.Store.Expiry.{end_of_life, expiring}
use redis_cpp.Store.Writes
use redis_cpp.Store.Writes.{string_value}
use redis_cpp.Store.View.{view}
use redis_cpp.Base.{ℕ, ltb, none, if◌then◌else◌}
use redis_cpp.Base.Int.{pos}
use redis_cpp.Server.Waking.{IsWoken, all-IsWoken}
use redis_cpp.Store.{success, delete_if_expired, delete_all_expired}
use redis_cpp.Store.Reads
use redis_cpp.Store.Concurrent.{Shared, asleep, holding, forgets, deletes, Run}
use redis_cpp.Store.Interleaving.{Shows, Run-Shows}
use redis_cpp.Aof.Replay.{run_all}
use redis_cpp.Aof.Ordering
use redis_cpp.Aof.Ordering.{Logged, set_command, log_reordered}
use redis_cpp.Tests.Stores.{
  with_text-unlimited, key, with_text, with_text-IsValid, empty_store, empty_store-IsValid,
}
use redis_cpp.Base.{All, ◌++◌, codes, ◌≡◌, refl, true, false, some, [], ◌∷◌, arith}
use redis_cpp.Server.Lifecycle.{
  Network, new_server, start, Client, closed, untracked, testing, accepting, ended, counted,
  silenced, disconnecting, waiting, wake_all, disconnects, waits, stopped, TcpServer, connected,
  goes_on, accepts, tracks, counts, spawns, flags, ends, silences, copies, Reach, here, next,
}
use redis_cpp.Server.Counting.{Consistent, start-Consistent}
use redis_cpp.Server.Races.{is_tracked, late_client, reused_fd}

abbrev net : Network
net = record { socket = some 3; binds = true; listens = true; bound = some 6380 }

abbrev at_accept : TcpServer
at_accept = record new_server { listen_fd = some 3; actual_port = 6380; acceptor = accepting }

begun : Reach (start net 6380 new_server).1 at_accept
unfolding start
begun = next here (goes_on refl refl)

start-Consistent_example : Consistent at_accept
start-Consistent_example = start-Consistent net 6380 at_accept begun

-- No client, and `Stop` in its wait.
abbrev at_wait : TcpServer
at_wait = record new_server { stop_flag = true; acceptor = ended; stopper = waiting }

at_wait-Consistent : Consistent at_wait
at_wait-Consistent = record { count = refl; flag = refl; silence = λ e. refl }

abbrev at_end : TcpServer
at_end = record at_wait { stopper = stopped 0 }

-- A client that is counted when the listening socket is closed.
abbrev one_coming : TcpServer
one_coming = record new_server {
  stop_flag = true;
  active_clients = 1;
  client_fds = 4 ∷ [];
  acceptor = counted 4;
  stopper = silenced;
}

one_coming-Consistent : Consistent one_coming
one_coming-Consistent = record { count = refl; flag = refl; silence = λ e. refl }

abbrev one_come : TcpServer
one_come = record one_coming { clients = connected 4 ∷ []; acceptor = testing }

late_client_example :
    (t : TcpServer) × Reach at_accept t
    × (t.stopper ≡ stopped 0)
    × (t.acceptor ≡ ended)
    × (t.clients ≡ connected 4 ∷ [])
late_client_example =
    late_client at_accept 4 3 refl refl refl refl refl (λ e. omega (arith, e)) refl

-- A client whose thread has closed its socket.
abbrev leaving : Client
leaving = record (connected 4) { phase = closed }

abbrev one_leaving : TcpServer
one_leaving = record at_accept { active_clients = 1; client_fds = 4 ∷ []; clients = leaving ∷ [] }

reused_fd_example :
    (t : TcpServer) × Reach one_leaving t
    × (t.clients ≡ connected 4 ∷ (record leaving { phase = untracked } ∷ []))
    × (is_tracked 4 t.client_fds ≡ false)
reused_fd_example =
    reused_fd one_leaving [] leaving [] 3 refl refl refl refl (λ e. omega (arith, e)) refl

-- A string that was set after a reader and the sweeper had found the key expired.
abbrev refreshed : Shared
refreshed = record {
  store = with_text;
  time = 1;
  readers = (key ∷ []) ∷ [];
  sweeper = holding (key ∷ []);
  stop_sweeper = false;
}

abbrev swept : Shared
swept = record refreshed {
  store = delete_all_expired 3 (key ∷ []) (delete_if_expired 2 key with_text).1;
  time = 3;
  readers = [] ∷ [];
  sweeper = asleep;
}

deleting : Run refreshed false swept
deleting =
    Run.next (Run.next Run.here (forgets [] key [] [] 2 refl (omega arith)))
      (deletes (key ∷ []) 3 refl (omega arith))

Run-Shows_example : Shows false refreshed swept
Run-Shows_example = Run-Shows refreshed swept false with_text-IsValid deleting

-- A log that two clients share, with no command in it.
abbrev fresh_log : Logged
fresh_log = record { store = empty_store; log = []; waiting = [] }

log_reordered_example :
    (t : Logged) × Ordering.Run fresh_log t
    × (t.waiting ≡ [])
    × ((Reads.get 5 key t.store).0 ≡ success (codes "2"))
    × (t.log ≡ [] ++ (set_command key (codes "2") ∷ set_command key (codes "1") ∷ []))
    × ((Reads.get 5 key (
          run_all 0
            (λ i. i)
            (set_command key (codes "2") ∷ set_command key (codes "1") ∷ [])
            empty_store)).0
        ≡ success (codes "1"))
log_reordered_example =
    log_reordered fresh_log empty_store 5 0 (λ i. i) key (codes "1") (codes "2") empty_store-IsValid
      refl empty_store-IsValid refl

-- Two clients, one of which has left, when Stop has copied their numbers.
abbrev two_served : TcpServer
two_served = record at_accept {
  stop_flag = true;
  active_clients = 2;
  client_fds = 4 ∷ [];
  clients = connected 4 ∷ leaving ∷ [];
  acceptor = ended;
  stopper = disconnecting (4 ∷ []);
}

abbrev four_woken : TcpServer
four_woken = record two_served {
  clients = wake_all 4 (connected 4 ∷ leaving ∷ []);
  stopper = disconnecting [];
}

waking : Reach two_served (record four_woken { stopper = waiting })
waking = next (next here (disconnects 4 [] refl)) (waits refl)

all-IsWoken_example : All IsWoken (wake_all 4 (connected 4 ∷ leaving ∷ []))
all-IsWoken_example = all-IsWoken (4 ∷ []) refl refl (refl, (refl, tt)) waking refl

-- A store with one string, which two clients set.
set_interrupted_example :
    (t : Sections) × Sections.Run (record { store = with_text; timed = [] }) t
    × (t.timed ≡ [])
    × ((i : ℕ)
        → view i key t.store ≡ (
            if ltb i (end_of_life 5 2)
            then some (expiring 5 2 (string_value (codes "b")))
            else none))
    × ((i : ℕ)
        → view i key (Writes.set key (codes "b") (set_ex 5 key (codes "a") (pos 2) with_text))
          ≡ some (string_value (codes "b")))
    × ((i : ℕ)
        → view i key (set_ex 5 key (codes "a") (pos 2) (Writes.set key (codes "b") with_text)) ≡ (
            if ltb i (end_of_life 5 2)
            then some (expiring 5 2 (string_value (codes "a")))
            else none))
set_interrupted_example =
    set_interrupted (record { store = with_text; timed = [] }) 5 key (codes "a") (codes "b") 2
      with_text-IsValid with_text-unlimited (omega arith) (omega arith)

-- A client is accepted, and Stop copies its number.
abbrev one_served : TcpServer
one_served = record two_served { listen_fd = none; active_clients = 1; clients = connected 4 ∷ [] }

copied_one : Reach (start net 6380 new_server).1 one_served
unfolding start
copied_one =
    let r₁ = next begun (accepts 4 3 refl refl (λ e. omega (arith, e)) refl) in
    let r₂ = next r₁ (tracks 4 refl) in
    let r₃ = next r₂ (counts 4 refl) in
    let r₄ = next r₃ (spawns 4 refl) in
    let r₅ = next r₄ (flags refl) in
    let r₆ = next r₅ (ends refl refl) in let r₇ = next r₆ (silences refl) in next r₇ (copies refl)

can_stop_example : (u : TcpServer) × Own one_served u × (u.stopper ≡ stopped 0) × (u.clients ≡ [])
can_stop_example = can_stop net 6380 (4 ∷ []) copied_one refl refl (refl, tt) here refl
