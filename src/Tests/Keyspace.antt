-- ===== src/Tests/Keyspace.antt =====
-- The commands of src/store/store.cpp and src/server/dispatcher.cpp, on stores with a few keys.
use mathlib.Core.Quot
use redis_cpp.Dispatcher.Keyspace.{Plain, set_step, set_step-set_step}
use redis_cpp.Store.Alike.{Alike}
use redis_cpp.Dispatcher.Twins.{Twin}
use redis_cpp.Dispatcher.{command_of, dispatch}
use redis_cpp.Dispatcher.Replies.{to_upper}
use redis_cpp.Dispatcher.KeyListing.{Lists, do_keys-Lists}
use redis_cpp.Dispatcher.Handlers.{do_keys}
use redis_cpp.Dispatcher.Sameness.{replies_alike, dispatch-Twin}
use redis_cpp.Dispatcher.ReplyTypes.{HasType, reply_type}
use redis_cpp.Dispatcher.ReplyTyping.{dispatch-HasType}
use redis_cpp.Dispatcher.GlobMatching.{matches, glob_match-matches}
use redis_cpp.Base.{
  str_eq, if◌then◌else◌, ℕ, ◌∙◌, ap, List, Bytes, true, false, ◌≡◌, refl, [], ◌∷◌, ◌++◌, arith,
  codes, length,
}
use mathlib.Core.List.{reverse}
use redis_cpp.Base.Int.{pos, negsuc}
use redis_cpp.Value.{list, hash}
use redis_cpp.Store.{Store}
use redis_cpp.Store.View.{view, Writes-view, SameView}
use redis_cpp.Store.Modify.{base}
use redis_cpp.Store.Strings.{set-Writes, del-lem, bound_keys, Unbinds}
use redis_cpp.Store.Lists.{Pushes, lpush-Pushes}
use redis_cpp.Store.Slice.{select, between, slice-select}
use redis_cpp.Store.Hashes.{HsetEffect, hset-Writes}
use redis_cpp.Store.Reads.{slice}
use redis_cpp.Store.Writes
use redis_cpp.Store.Writes.{string_value, set_fields, set_list}
use redis_cpp.Dispatcher.Glob.{glob_match}
use redis_cpp.Dispatcher.Effects.{Effect}
use redis_cpp.Dispatcher.EveryCommand.{dispatch-Effect}
use redis_cpp.Tests.Stores.{
  with_text-unlimited, key, other, text, two_items, two_fields, empty_store, empty_store-IsValid,
  with_text, with_text-IsValid, with_list, list_pushed, list-Fits, with_hash, with_hash-IsValid,
  hash-Fits,
}

dispatch-Effect_example :
    Effect 0 with_text (dispatch 0 (codes "lpush") (key ∷ two_items) with_text)
dispatch-Effect_example =
    dispatch-Effect 0 (codes "lpush") (key ∷ two_items) with_text with_text-IsValid

lpush-Pushes_example :
    Pushes 0 key
      (reverse two_items ++ (base list (view 0 key with_list)).list_value)
      with_list
      (Writes.lpush two_items 0 key with_list)
lpush-Pushes_example = lpush-Pushes two_items 0 key with_list list_pushed.write.valid list-Fits

slice-select_example :
    slice (negsuc 1) (pos 9) two_items
    ≡ select (between (negsuc 1) (pos 9) (length two_items)) 0 two_items
slice-select_example = slice-select (negsuc 1) (pos 9) two_items (omega arith)

hset-Writes_example :
    HsetEffect two_fields key
      (base hash (view 0 key with_hash))
      with_hash
      (Writes.hset two_fields 0 key with_hash)
hset-Writes_example = hset-Writes two_fields 0 key with_hash with_hash-IsValid hash-Fits

del-lem_example :
    ((Writes.del 0 (key ∷ key ∷ other ∷ []) with_text).0
      ≡ pos (bound_keys (λ q. view 0 q with_text) (key ∷ key ∷ other ∷ [])))
    × Unbinds (key ∷ key ∷ other ∷ []) with_text (Writes.del 0 (key ∷ key ∷ other ∷ []) with_text).1
del-lem_example = del-lem 0 (key ∷ key ∷ other ∷ []) with_text with_text-IsValid

glob_match-matches_example :
    glob_match (codes "k*?y") (codes "kelly") ≡ matches (codes "k*?y") (codes "kelly")
glob_match-matches_example =
    glob_match-matches (codes "k*?y") (codes "kelly") (refl, (refl, (refl, (refl, (refl, tt)))))

-- The pattern has to match the whole key.
matches_kelly : matches (codes "k*?y") (codes "kelly") ≡ true
unfolding matches
matches_kelly = refl

no_match_kelly : matches (codes "k*?") (codes "k") ≡ false
unfolding matches
no_match_kelly = refl

-- The string, stored twice.
abbrev text_twice : Store
text_twice = Writes.set key text with_text

text_twice-view : (t : ℕ) (q : Bytes) → view t q with_text ≡ view t q text_twice
text_twice-view t q = ground (
  arith,
  Writes-view (set-Writes key text empty_store empty_store-IsValid) refl t q,
  Writes-view (set-Writes key text with_text with_text-IsValid)
      (set-Writes key text empty_store empty_store-IsValid).budget t q,
)

text_twice-Alike : Alike true 5 5 with_text text_twice
text_twice-Alike = record {
  valid = with_text-IsValid;
  valid' = (set-Writes key text with_text with_text-IsValid).valid;
  unlimited = (set-Writes key text empty_store empty_store-IsValid).budget;
  unlimited' =
      (set-Writes key text with_text with_text-IsValid).budget
      ∙ (set-Writes key text empty_store empty_store-IsValid).budget;
  views = λ t t' q l l' same. text_twice-view t q ∙ ap (λ (i : ℕ). view i q text_twice) same;
}

abbrev expire_args : List Bytes
expire_args = key ∷ codes "2" ∷ []

dispatch-Twin_example :
    Twin true 5 5
      (replies_alike true (command_of (to_upper (codes "expire"))))
      (dispatch 5 (codes "expire") expire_args with_text)
      (dispatch 5 (codes "expire") expire_args text_twice)
dispatch-Twin_example =
    dispatch-Twin true 5 5 (codes "expire") expire_args with_text text_twice refl text_twice-Alike
      refl

dispatch-HasType_example :
    HasType
      (dispatch 5 (codes "nope") expire_args with_text).reply
      (reply_type (command_of (to_upper (codes "nope"))))
dispatch-HasType_example =
    dispatch-HasType 5 (codes "nope") expire_args with_text (refl, (refl, (refl, (refl, tt))))

abbrev plain_text : Plain
plain_text = (with_text, with_text-IsValid, with_text-unlimited)

set_step-set_step_example :
    set_step 5 key (codes "a") (set_step 5 other (codes "b") (Quot.mk plain_text)) ≡ (
      if str_eq key other
      then set_step 5 key (codes "a") (Quot.mk plain_text)
      else set_step 5 other (codes "b") (set_step 5 key (codes "a") (Quot.mk plain_text)))
set_step-set_step_example =
    set_step-set_step 5 key (codes "a") other (codes "b") (Quot.mk plain_text)

do_keys-Lists_example :
    let o = do_keys 5 (codes "keys") (codes "k*" ∷ []) with_text in
    Lists 5 (codes "k*") with_text o.reply × (o.logged ≡ false) × SameView 5 with_text o.store
do_keys-Lists_example = do_keys-Lists 5 (codes "keys") (codes "k*") with_text with_text-IsValid
