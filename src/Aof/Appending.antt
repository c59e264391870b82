-- ===== src/Aof/Appending.antt =====
-- `Append` of src/server/aof.cpp, and the log that it leaves for `LoadAof`.
use mathlib.Core.List.{append_assoc}
use redis_cpp.Base.{
  ℕ, ◌+◌, ◌≤◌, ◌≡◌, refl, sym, ◌∙◌, ap, ◌⊎◌, inl, inr, Bool, true, some, List, [], ◌∷◌, ◌++◌, arith,
  length, append-nil, take-drop, length-drop, take, drop, Bytes, All, All-append,
}
use redis_cpp.Resp.RoundTrip.{IsCommand, wire}
use redis_cpp.Store.{Store}
use redis_cpp.Aof.{
  Answer, interrupted, refused, wrote, Progress, finished, failed, running, write_all, append,
  load_aof, synced,
}
use redis_cpp.Aof.Replay.{log_of, run_all, torn_command, load_aof-log_of}
use redis_cpp.Resp.Parser.{try_parse_command}

-- What the loop of `Append` leaves: the file with a part of the data behind it, all of it at the end.
record Written (data' file : Bytes) (r : Progress × Bytes) : Type 0 where
  part : Bytes
  left : Bytes
  split : data' ≡ part ++ left
  grown : r.1 ≡ file ++ part
  whole : r.0 ≡ finished → left ≡ []

write_all-Written :
    (answers : List Answer) (data' file : Bytes) → Written data' file (write_all answers data' file)
unfolding write_all
write_all-Written answers [] file = record {
  part = [];
  left = [];
  split = refl;
  grown = sym (append-nil file);
  whole = λ _. refl;
}
write_all-Written [] (c ∷ data') file = record {
  part = [];
  left = c ∷ data';
  split = refl;
  grown = sym (append-nil file);
  whole = λ h. absurd (cc (h));
}
write_all-Written (interrupted ∷ answers) (c ∷ data') file =
    write_all-Written answers (c ∷ data') file
write_all-Written (refused ∷ answers) (c ∷ data') file = record {
  part = [];
  left = c ∷ data';
  split = refl;
  grown = sym (append-nil file);
  whole = λ h. absurd (cc (h));
}
write_all-Written (wrote n ∷ answers) (c ∷ data') file =
    let ih = write_all-Written answers (drop n (c ∷ data')) (file ++ take n (c ∷ data')) in
    record {
      part = take n (c ∷ data') ++ ih.part;
      left = ih.left;
      split =
          sym (ap (λ (l : Bytes). take n (c ∷ data') ++ l) (sym ih.split) ∙ take-drop n (c ∷ data'))
          ∙ sym (append_assoc (take n (c ∷ data')) ih.part ih.left);
      grown = ih.grown ∙ append_assoc file (take n (c ∷ data')) ih.part;
      whole = ih.whole;
    }

-- Whether a call of `::write` takes data or is only interrupted, and how much all of them take.
abbrev IsWilling : Answer → Type 0
IsWilling interrupted = Unit
IsWilling refused = ⊥
IsWilling (wrote n) = Unit

abbrev taken : List Answer → ℕ
taken [] = 0
taken (wrote n ∷ answers) = n + taken answers
taken (answer ∷ answers) = taken answers

-- If no call of write fails and together they may take as many bytes as the data has, the loop of
-- Append ends with the data, whole and in order, behind the file.
pub write_all_finishes :
    (answers : List Answer) (data' file : Bytes)
    → All IsWilling answers
    → length data' ≤ taken answers
    → write_all answers data' file ≡ (finished, file ++ data')
unfolding write_all
write_all_finishes answers [] file ok h = ap (λ (f : Bytes). (finished, f)) (sym (append-nil file))
write_all_finishes [] (c ∷ data') file ok h = absurd (omega arith)
write_all_finishes (interrupted ∷ answers) (c ∷ data') file ok h =
    write_all_finishes answers (c ∷ data') file ok.1 h
write_all_finishes (refused ∷ answers) (c ∷ data') file ok h = absurd ok.0
write_all_finishes (wrote n ∷ answers) (c ∷ data') file ok h =
    write_all_finishes answers (drop n (c ∷ data')) (file ++ take n (c ∷ data')) ok.1
      (omega (arith, length-drop n (c ∷ data')))
    ∙ ap (λ (f : Bytes). (finished, f))
        (append_assoc file (take n (c ∷ data')) (drop n (c ∷ data'))
          ∙ ap (λ (l : Bytes). file ++ l) (take-drop n (c ∷ data')))

log_of-append :
    (commands : List (List Bytes)) (args : List Bytes)
    → log_of (commands ++ (args ∷ [])) ≡ log_of commands ++ wire args
log_of-append [] args = append-nil (wire args)
log_of-append (first ∷ commands) args =
    ap (λ (l : Bytes). wire first ++ l) (log_of-append commands args)
    ∙ sym (append_assoc (wire first) (log_of commands) (wire args))

-- A file that `LoadAof` reads as these commands.
abbrev pub Loads : List (List Bytes) → Bytes → Type 0
Loads commands file =
    (clock : ℕ → ℕ) (s : Store) → load_aof (some file) clock s ≡ (true, run_all 0 clock commands s)

pub Loads-log_of :
    (commands : List (List Bytes)) → All IsCommand commands → Loads commands (log_of commands)
unfolding try_parse_command
Loads-log_of commands ok clock s =
    ap (λ (b : Bytes). load_aof (some b) clock s) (sym (append-nil (log_of commands)))
    ∙ load_aof-log_of commands [] clock s ok refl

-- The file behind a log, with a part of a command written to it.
Loads-Written :
    (commands : List (List Bytes)) (args : List Bytes) (r : Progress × Bytes)
    → All IsCommand commands
    → IsCommand args
    → (part left : Bytes) → wire args ≡ part ++ left
    → r.1 ≡ log_of commands ++ part
    → (r.0 ≡ finished → left ≡ [])
    → (r.0 ≡ finished → Loads (commands ++ (args ∷ [])) r.1)
      × (Loads commands r.1 ⊎ Loads (commands ++ (args ∷ [])) r.1)
Loads-Written commands args r ok okay part [] split grown whole =
    let loads : Loads (commands ++ (args ∷ [])) r.1 =
      rw
        (grown
          ∙ ap (λ (l : Bytes). log_of commands ++ l) (sym (split ∙ append-nil part))
          ∙ sym (log_of-append commands args))
        (Loads-log_of (commands ++ (args ∷ []))
          (All-append IsCommand commands (args ∷ []) ok (okay, tt))) in
    (λ _. loads, inr loads)
Loads-Written commands args r ok okay part (c ∷ left) split grown whole = (
  λ h. absurd (cc (whole h)),
  inl (
      rw grown (λ clock s.
        load_aof-log_of commands part clock s ok (torn_command args part c left okay split))),
)

synced_finished : (sync : Bool) (p : Progress) → synced sync p ≡ true → p ≡ finished
synced_finished sync finished h = refl
synced_finished sync failed h = absurd (cc (h))
synced_finished sync running h = absurd (cc (h))

-- When Append to a log of commands within the limits of the parser returns true, LoadAof replays
-- the commands of the log and then the new one, and returns true.
pub append-Loads :
    (commands : List (List Bytes)) (args : List Bytes) (answers : List Answer) (sync : Bool)
    → All IsCommand commands
    → IsCommand args
    → (append true answers sync args (log_of commands)).0 ≡ true
    → Loads (commands ++ (args ∷ [])) (append true answers sync args (log_of commands)).1
unfolding append
append-Loads commands args answers sync ok okay h =
    let w = write_all-Written answers (wire args) (log_of commands) in
    let r = write_all answers (wire args) (log_of commands) in
    let l = Loads-Written commands args r ok okay w.part w.left w.split w.grown w.whole in
    l.0 (synced_finished sync r.0 h)

-- However the calls of write and fsync in Append to a log of commands within the limits of the
-- parser end, LoadAof then replays the commands of the log, without the new command or with it,
-- and returns true.
pub append_any-Loads :
    (commands : List (List Bytes)) (args : List Bytes) (answers : List Answer) (sync : Bool)
    → All IsCommand commands
    → IsCommand args
    → Loads commands (append true answers sync args (log_of commands)).1
      ⊎ Loads (commands ++ (args ∷ [])) (append true answers sync args (log_of commands)).1
unfolding append
append_any-Loads commands args answers sync ok okay =
    let w = write_all-Written answers (wire args) (log_of commands) in
    let r = write_all answers (wire args) (log_of commands) in
    (Loads-Written commands args r ok okay w.part w.left w.split w.grown w.whole).1

-- When Append returns true, the command stands whole behind what the file held.
pub append-whole :
    (args : List Bytes) (file : Bytes) (answers : List Answer) (sync : Bool)
    → (append true answers sync args file).0 ≡ true
    → (append true answers sync args file).1 ≡ file ++ wire args
unfolding append
append-whole args file answers sync h =
    let w = write_all-Written answers (wire args) file in
    let done = synced_finished sync (write_all answers (wire args) file).0 h in
    w.grown
    ∙ ap (λ (l : Bytes). file ++ l)
        (sym (w.split ∙ ap (λ (l : Bytes). w.part ++ l) (w.whole done) ∙ append-nil w.part))
