-- ===== src/Dispatcher/KeyListing.antt =====
-- KEYS of src/server/dispatcher.cpp: the keys of the store, filtered by the pattern.
use redis_cpp.Base.{
  ℕ, ◌≡◌, refl, inl, inr, false, List, [], ◌∷◌, arith, to_nat, if◌then◌else◌, Bytes, str_eq_iff,
  Bool-cases,
}
use redis_cpp.Resp.{RespValue}
use redis_cpp.HashTable.Invariant.{is_some}
use redis_cpp.Store.{Store}
use redis_cpp.Store.Invariant.{IsValid}
use redis_cpp.Store.View.{view, SameView, delete_all_expired-SameView}
use redis_cpp.Store.Listing.{listed, keys-listed}
use redis_cpp.Store.Reads
use redis_cpp.Dispatcher.Glob.{glob_match, filter_keys}
use redis_cpp.Dispatcher.Replies.{bulk_array}
use redis_cpp.Dispatcher.Handlers.{do_keys}

listed-filter_keys :
    (pattern q : Bytes) (ks : List Bytes)
    → listed q (filter_keys pattern ks) ≡ (if glob_match pattern q then listed q ks else 0)
unfolding filter_keys
listed-filter_keys pattern q [] = elim (Bool-cases (glob_match pattern q)) [
  | inl e ↦ rw e refl
  | inr e ↦ rw e refl
]
listed-filter_keys pattern q (k ∷ ks) =
    ground (arith, listed-filter_keys pattern q ks, str_eq_iff k q)

-- An array that lists the keys in view that match, each of them once, and nothing else.
pub record Lists (now : ℕ) (pattern : Bytes) (s : Store) (reply : RespValue) : Type 0 where
  pub items : List Bytes
  pub shape : reply ≡ bulk_array items
  pub once :
      (q : Bytes)
      → listed q items ≡ (if glob_match pattern q then to_nat (is_some (view now q s)) else 0)

-- KEYS with one pattern on a well-formed store replies an array that lists each key in view that
-- GlobMatch matches with the pattern exactly once and nothing else, is not handed to the log, and
-- changes nothing that shows from its instant on.
pub do_keys-Lists :
    (now : ℕ) (name pattern : Bytes) (s : Store)
    → IsValid s
    → let o = do_keys now name (pattern ∷ []) s in
      Lists now pattern s o.reply × (o.logged ≡ false) × SameView now s o.store
unfolding do_keys
do_keys-Lists now name pattern s valid = (
  record {
    items = _;
    shape = refl;
    once =
        λ q. rw (← (keys-listed now q s valid)) (listed-filter_keys pattern q (Reads.keys now s).0);
  },
  refl,
  unfold Reads.keys in delete_all_expired-SameView now _ s valid,
)
