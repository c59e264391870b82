-- ===== src/Dispatcher/HandlerTwins.antt =====
-- Every handler of src/server/dispatcher.cpp on two stores that show the same, those on whole keys.
use redis_cpp.Base.{
  ℕ, ◌≡◌, refl, sym, ◌∙◌, ap, inl, inr, Bool, true, false, ◌||◌, Option, List, [], ◌∷◌, arith,
  Bytes, str_eq, codes, Bool-cases, Option-cases,
}
use redis_cpp.Base.Int.{pos}
use redis_cpp.Value.{ValueType, Value}
use redis_cpp.Store.{Result, Store}
use redis_cpp.Store.Invariant.{strip}
use redis_cpp.Store.View.{view, delete_all_expired-SameView}
use redis_cpp.Store.Alike.{
  one_clock, Together, Alike, Alike-SameView, view-Alike, viewed-Alike, flush_all-Alike,
}
use redis_cpp.Store.Alike.Expiry.{expire-Alike}
use redis_cpp.Store.Lookup.{ttl_of, ttl-Reads}
use redis_cpp.Store.Listing.{exists-Reads}
use redis_cpp.Dispatcher.KeyListing.{do_keys-Lists}
use redis_cpp.Store.Reads as ReadOps
use redis_cpp.Store.Reads.{read_entry}
use redis_cpp.Resp.{RespValue, integer}
use redis_cpp.Resp.Numbers.{parse_int64}
use redis_cpp.Dispatcher.{Command, set, expire}
use redis_cpp.Dispatcher.Replies.{refused, answer_with, to_upper, bulk_of}
use redis_cpp.Dispatcher.Handlers.{
  do_ping, do_echo, do_set, do_get, do_del, do_exists, do_keys, do_flushall, do_expire, do_ttl,
}
use redis_cpp.Dispatcher.Twins.{
  equal, reordered, untold, Likeness, Said, Twin, Twin-mute, refused-Twin, answered-Twin, read-Twin,
  written-Twin, set-Alike, del-Twin,
}

-- The commands that set no deadline.
abbrev pub is_timeless : Command → List Bytes → Bool
is_timeless expire args = false
is_timeless set (key ∷ value ∷ option ∷ args) = false
is_timeless c args = true

-- TTL reads the clock.
abbrev pub ttl_likeness : Bool → Likeness
ttl_likeness true = equal
ttl_likeness false = untold

Said-ttl :
    (shared : Bool) (r r' : RespValue) → (shared ≡ true → r ≡ r') → Said (ttl_likeness shared) r r'
Said-ttl true r r' h = h refl
Said-ttl false r r' h = tt

module _ (shared : Bool) (now now' : ℕ) (name : Bytes) (s s' : Store)
    (together : Together shared now now') (a : Alike shared now now' s s') where
  no_change : (reply : RespValue) → Twin shared now now' equal (refused reply s) (refused reply s')
  no_change = refused-Twin shared now now' s s' together a

  reads {ℓ} :
      {A : Type ℓ} (ty : ValueType) (absent : Result A) (answer : Value → Result A)
      (show : Option A → RespValue)
      → ((v : Value) → answer (strip v) ≡ answer v)
      → (k : Bytes)
      → Twin shared now now' equal
          (answer_with show (read_entry ty absent answer now k s))
          (answer_with show (read_entry ty absent answer now' k s'))
  reads = read-Twin shared now now' s s' together a

  pub do_ping-Twin :
      (args : List Bytes) → Twin shared now now' equal (do_ping name args s) (do_ping name args s')
  unfolding do_ping
  do_ping-Twin [] = no_change _
  do_ping-Twin (m ∷ []) = no_change _
  do_ping-Twin (m ∷ n ∷ args) = no_change _

  pub do_echo-Twin :
      (args : List Bytes) → Twin shared now now' equal (do_echo name args s) (do_echo name args s')
  unfolding do_echo
  do_echo-Twin (m ∷ []) = no_change _
  do_echo-Twin _ = no_change _

  pub do_set-Twin :
      (args : List Bytes)
      → (shared || is_timeless set args) ≡ true
      → Twin shared now now' equal (do_set now name args s) (do_set now' name args s')
  unfolding do_set
  do_set-Twin (key ∷ value ∷ []) h =
      written-Twin shared now now' s s' together a _ _ _
        (set-Alike shared now now' s s' together a key value)
  do_set-Twin (key ∷ value ∷ option ∷ seconds ∷ []) h =
      elim (Bool-cases (str_eq (to_upper option) (codes "EX"))) [
        | inr other ↦ rw other (no_change _)
        | inl ex ↦ rw ex (elim (Option-cases (parse_int64 seconds)) [
          | inl e ↦ rw e (no_change _)
          | inr (n, e) ↦ rw e (
              written-Twin shared now now' s s' together a _ _ _
                (expire-Alike shared now now' _ _ (ground (arith, h)) together
                  (set-Alike shared now now' s s' together a key value) key n).1)
        ])
      ]
  do_set-Twin _ h = no_change _

  pub do_get-Twin :
      (args : List Bytes)
      → Twin shared now now' equal (do_get now name args s) (do_get now' name args s')
  unfolding do_get ReadOps.get
  do_get-Twin (key ∷ []) = reads _ _ _ bulk_of (λ v. refl) key
  do_get-Twin _ = no_change _

  pub do_del-Twin :
      (args : List Bytes)
      → Twin shared now now' equal (do_del now name args s) (do_del now' name args s')
  unfolding do_del
  do_del-Twin [] = no_change _
  do_del-Twin (key ∷ others) = del-Twin shared now now' s s' together a (key ∷ others)

  pub do_exists-Twin :
      (args : List Bytes)
      → Twin shared now now' equal (do_exists now name args s) (do_exists now' name args s')
  unfolding do_exists
  do_exists-Twin [] = no_change _
  do_exists-Twin (key ∷ others) =
      answered-Twin shared now now' s s' together a integer _ _ _ _
        (ap pos (viewed-Alike shared now now' s s' together a (key ∷ others)))
        (exists-Reads now (key ∷ others) s a.valid) (exists-Reads now' (key ∷ others) s' a.valid')

  pub do_keys-Twin :
      (args : List Bytes)
      → Twin shared now now' reordered (do_keys now name args s) (do_keys now' name args s')
  unfolding do_keys ReadOps.keys
  do_keys-Twin (pattern ∷ []) = record {
    stores =
        Alike-SameView a (delete_all_expired-SameView now _ s a.valid)
          (delete_all_expired-SameView now' _ s' a.valid');
    logged = refl;
    replies =
        let l = (do_keys-Lists now name pattern s a.valid).0 in
        let l' = (do_keys-Lists now' name pattern s' a.valid').0 in
        inr (record {
          items = _;
          items' = _;
          shape = l.shape;
          shape' = l'.shape;
          counts =
              λ q. l.once q ∙ rw (view-Alike shared now now' s s' together a q) (sym (l'.once q));
        });
  }
  do_keys-Twin _ = Twin-mute reordered (no_change _)

  pub do_flushall-Twin :
      (args : List Bytes)
      → Twin shared now now' equal (do_flushall name args s) (do_flushall name args s')
  unfolding do_flushall
  do_flushall-Twin [] =
      written-Twin shared now now' s s' together a _ _ _ (flush_all-Alike shared now now' s s' a)
  do_flushall-Twin _ = no_change _

  pub do_expire-Twin :
      (args : List Bytes)
      → shared ≡ true
      → Twin shared now now' equal (do_expire now name args s) (do_expire now' name args s')
  unfolding do_expire
  do_expire-Twin (key ∷ seconds ∷ []) h = elim (Option-cases (parse_int64 seconds)) [
    | inl e ↦ rw e (no_change _)
    | inr (n, e) ↦
        let (reply, r) = expire-Alike shared now now' s s' h together a key n in
        rw (e, reply) (written-Twin shared now now' s s' together a _ _ _ r)
  ]
  do_expire-Twin _ h = no_change _

  ttl-same : (key : Bytes) → shared ≡ true → (ReadOps.ttl now key s).0 ≡ (ReadOps.ttl now' key s').0
  ttl-same key h =
      (ttl-Reads now key s a.valid).replies
      ∙ ap (ttl_of now) (view-Alike shared now now' s s' together a key)
      ∙ ap (λ (i : ℕ). ttl_of i (view now' key s')) (one_clock shared now now' together h)
      ∙ sym (ttl-Reads now' key s' a.valid').replies

  pub do_ttl-Twin :
      (args : List Bytes)
      → Twin shared now now'
          (ttl_likeness shared)
          (do_ttl now name args s)
          (do_ttl now' name args s')
  unfolding do_ttl
  do_ttl-Twin (key ∷ []) = record {
    stores =
        Alike-SameView a (ttl-Reads now key s a.valid).same (ttl-Reads now' key s' a.valid').same;
    logged = refl;
    replies = Said-ttl shared _ _ (λ h. ap integer (ttl-same key h));
  }
  do_ttl-Twin _ = Twin-mute (ttl_likeness shared) (no_change _)
