-- ===== src/Store/Listing.antt =====
-- EXISTS and KEYS of src/store/store.cpp as a client sees them.
use redis_cpp.Base.{
  ℕ, ◌+◌, ◌≤◌, ◌≡◌, refl, ◌∙◌, ap, inl, inr, Option, none, some, List, [], ◌∷◌, arith, to_nat,
  Bytes, str_eq, Bool-cases, Option-cases,
}
use redis_cpp.Base.Int.{pos}
use redis_cpp.HashTable
use redis_cpp.HashTable.Nodes.{Chain, find, occurs, find-none, total}
use redis_cpp.HashTable.Invariant.{is_some}
use redis_cpp.HashTable.Methods.{find-entries, occurs-entries-le}
use redis_cpp.Value.{Value}
use redis_cpp.Store.{Store, is_expired}
use redis_cpp.Store.Reads
use redis_cpp.Store.Reads.{exists_loop, live_keys}
use redis_cpp.Store.Invariant.{IsValid, peek, strip_entry}
use redis_cpp.Store.View.{view, live, delete_all_expired-SameView}
use redis_cpp.Store.Lookup.{view-absent, view-gone, view-alive}
use redis_cpp.Store.Lookup as Lookup

-- How many keys of a list are in view, a key that is twice counting twice.
abbrev pub viewed : ℕ → Store → List Bytes → ℕ
viewed now s [] = 0
viewed now s (k ∷ ks) = to_nat (is_some (view now k s)) + viewed now s ks

exists_loop-viewed :
    (now : ℕ) (keys : List Bytes) (s : Store) → (exists_loop now keys s).0 ≡ viewed now s keys
unfolding exists_loop
exists_loop-viewed now [] s = refl
exists_loop-viewed now (k ∷ ks) s =
    let ih = exists_loop-viewed now ks s in
    elim (Option-cases (HashTable.get k s.table)) [
      | inl e ↦ rw (view-absent now k s e, exists_loop, e) (omega (arith, ih))
      | inr (v, e) ↦ elim (Bool-cases (is_expired now v)) [
        | inl gone ↦ rw (view-gone now k v s e gone, exists_loop, e, gone) (omega (arith, ih))
        | inr alive ↦ rw (view-alive now k v s e alive, exists_loop, e, alive) (omega (arith, ih))
      ]
    ]

-- EXISTS on a well-formed store replies how many of its arguments are keys in view, repeated ones
-- counted each time, and changes nothing that shows from its instant on.
pub exists-Reads :
    (now : ℕ) (keys : List Bytes) (s : Store)
    → IsValid s
    → Lookup.Reads now s (pos (viewed now s keys)) (Reads.exists now keys s)
unfolding Reads.exists
exists-Reads now keys s valid = record {
  replies = ap pos (exists_loop-viewed now keys s);
  same = delete_all_expired-SameView now (exists_loop now keys s).1 s valid;
}

-- How often a key stands in a list.
abbrev pub listed : Bytes → List Bytes → ℕ
listed q [] = 0
listed q (k ∷ ks) = to_nat (str_eq k q) + listed q ks

listed-live_keys :
    (now : ℕ) (q : Bytes) (c : Chain Value)
    → occurs q c ≤ 1
    → listed q (live_keys now c) ≡ to_nat (is_some (live now (find q c)))
unfolding live_keys find total
listed-live_keys now q [] few = refl
listed-live_keys now q ((k, v) ∷ c) few = elim (Bool-cases (str_eq k q)) [
  | inl same ↦
      let nowhere : occurs q c ≡ 0 = ground (arith, few, same) in
      let rest : listed q (live_keys now c) ≡ 0 =
        rw (find-none q c nowhere) at (listed-live_keys now q c (omega arith)) in
      elim (Bool-cases (is_expired now v)) [
        | inl gone ↦ rw (same, gone) rest
        | inr alive ↦ rw (alive, same, alive) (omega (arith, rest))
      ]
  | inr different ↦
      let fewer : occurs q c ≤ 1 = ground (arith, few, different) in
      let rest = listed-live_keys now q c fewer in
      elim (Bool-cases (is_expired now v)) [
        | inl gone ↦ rw (different, gone) rest
        | inr alive ↦ rw (alive, different) (omega (arith, rest))
      ]
]

live-strip :
    (now : ℕ) (o : Option Value) → is_some (live now o) ≡ is_some (live now (strip_entry o))
unfolding is_expired
live-strip now none = refl
live-strip now (some v) = elim (Bool-cases (is_expired now v)) [
  | inl gone ↦ rw gone refl
  | inr alive ↦ rw alive refl
]

-- The reply of KEYS on a well-formed store, before it is matched with a pattern, lists each key
-- in view exactly once and no other key.
pub keys-listed :
    (now : ℕ) (q : Bytes) (s : Store)
    → IsValid s
    → listed q (Reads.keys now s).0 ≡ to_nat (is_some (view now q s))
unfolding Reads.keys view peek
keys-listed now q s valid =
    listed-live_keys now q (HashTable.entries s.table) (occurs-entries-le q s.table valid.table)
    ∙ ap (λ (o : Option Value). to_nat (is_some (live now o))) (find-entries s.table q valid.table)
    ∙ ap to_nat (live-strip now (HashTable.get q s.table))
