-- ===== src/Aof/Deadlines.antt =====
-- A log holds the seconds of a deadline, and `LoadAof` of src/server/aof.cpp counts them anew from
-- the instant at which it replays the command.
use redis_cpp.Base.{
  ℕ, ◌^◌, ◌≤◌, ◌<◌, ◌≡◌, refl, sym, ◌∙◌, ap, Bool, true, false, none, some, List, [], ◌∷◌, arith,
  codes, ltb, if◌then◌else◌, Bytes, str_eq, append-nil,
}
use redis_cpp.Base.Int.{pos}
use redis_cpp.Resp.RoundTrip.{IsCommand, wire}
use redis_cpp.Resp.Numbers.{parse_int64}
use redis_cpp.Store.{Store}
use redis_cpp.Store.Invariant.{IsValid}
use redis_cpp.Store.View.{view}
use redis_cpp.Store.Writes.{string_value}
use redis_cpp.Store.Expiry.{end_of_life, expiring}
use redis_cpp.Dispatcher.{dispatch, run, command_of}
use redis_cpp.Dispatcher.Sections
use redis_cpp.Dispatcher.Sections.{view-set_ex}
use redis_cpp.Dispatcher.Handlers.{do_set}
use redis_cpp.Dispatcher.Replies.{to_upper}
use redis_cpp.Aof.{load_aof}
use redis_cpp.Aof.Replay.{run_all}
use redis_cpp.Aof.Appending.{Loads-log_of}

-- The arguments of `SET key value EX seconds` behind the name.
abbrev pub set_ex : Bytes → Bytes → Bytes → List Bytes
set_ex key value seconds = key ∷ value ∷ codes "EX" ∷ seconds ∷ []

-- What such a command leaves in view of its key.
view-dispatch :
    (now t : ℕ) (key value seconds : Bytes) (n : ℕ) (s : Store)
    → IsValid s
    → s.max_memory_bytes ≡ 0
    → parse_int64 seconds ≡ some (pos n)
    → 0 < n
    → end_of_life now n < 2 ^ 63
    → view t key (dispatch now (codes "SET") (set_ex key value seconds) s).store
      ≡ (if ltb t (end_of_life now n) then some (expiring now n (string_value value)) else none)
unfolding dispatch run command_of do_set to_upper str_eq Sections.set_ex
view-dispatch now t key value seconds n s valid unlimited number positive fits =
    rw number (view-set_ex now t key value n s valid unlimited positive fits)

-- SET with EX and a positive number of seconds, run on a well-formed store with no memory budget,
-- is handed to the log, and the key is in view at no instant from the deadline on. LoadAof of a
-- log of this command, at a later instant, into another such store leaves the key in view until
-- that number of seconds after the replay, with both deadlines within 63 bits.
pub deadline_renewed :
    (now later t : ℕ) (key value seconds : Bytes) (n : ℕ) (s r : Store)
    → IsCommand (codes "SET" ∷ set_ex key value seconds)
    → IsValid s
    → s.max_memory_bytes ≡ 0
    → IsValid r
    → r.max_memory_bytes ≡ 0
    → parse_int64 seconds ≡ some (pos n)
    → 0 < n
    → end_of_life now n < 2 ^ 63
    → end_of_life later n < 2 ^ 63
    → end_of_life now n ≤ t
    → t < end_of_life later n
    → let o = dispatch now (codes "SET") (set_ex key value seconds) s in
      (o.logged ≡ true)
      × (view t key o.store ≡ none)
      × (view t key
            (load_aof (some (wire (codes "SET" ∷ set_ex key value seconds))) (λ _. later) r).1
          ≡ some (expiring later n (string_value value)))
unfolding dispatch run command_of do_set to_upper str_eq
deadline_renewed now later t key value seconds n s r ok valid unlimited valid' unlimited' number
      positive fits fits' over before =
    let args = codes "SET" ∷ set_ex key value seconds in
    let clock = λ (_ : ℕ). later in
    let replayed : load_aof (some (wire args)) clock r ≡ (true, run_all 0 clock (args ∷ []) r) =
      ap (λ (b : Bytes). load_aof (some b) clock r) (sym (append-nil (wire args)))
      ∙ Loads-log_of (args ∷ []) (ok, tt) clock r in
    let gone : ltb t (end_of_life now n) ≡ false = ground (arith, over) in
    let there : ltb t (end_of_life later n) ≡ true = ground (arith, before) in
    (
      rw number refl,
      view-dispatch now t key value seconds n s valid unlimited number positive fits ∙ rw gone refl,
      ap (λ (q : Bool × Store). view t key q.1) replayed
          ∙ view-dispatch later t key value seconds n r valid' unlimited' number positive fits'
          ∙ rw there refl,
    )
