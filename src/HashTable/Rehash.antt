-- ===== src/HashTable/Rehash.antt =====
-- `RehashTo` of src/store/hash_table.h keeps every binding, whatever the new capacity.
use mathlib.Core.List.{flatten}
use redis_cpp.Base.{
  ℕ, zero, suc, ◌+◌, ◌≤◌, ◌<◌, ◌≡◌, refl, sym, ◌∙◌, none, List, [], ◌∷◌, ◌++◌, arith, Bytes,
  str_eq_iff, str_eq_refl, length, replicate, length-replicate, get_or-replicate,
}
use redis_cpp.HashTable.Nodes.{Chain, find, total, occurs, or_else, find-none}
use redis_cpp.HashTable.Buckets.{IsPlaced, link-Rebinds, find-flatten, occurs-flatten-le}
use redis_cpp.HashTable.{HashTable, chain_of, link, relink, relink_all, rehash_to}

flatten-replicate {ℓ} : {A : Type ℓ} (n : ℕ) → flatten {A = A} (replicate n []) ≡ []
unfolding flatten replicate
flatten-replicate zero = refl
flatten-replicate (suc n) = flatten-replicate n

module _ {ℓ} {V : Type ℓ} where
  -- Two vectors with the same bindings.
  pub record SameBindings (bs bs' : List (Chain V)) : Type ℓ where
    pub placed : IsPlaced bs'
    pub reads : (q : Bytes) → find q (chain_of bs' q) ≡ find q (chain_of bs q)
    pub totals : (w : Bytes → V → ℕ) → total w (flatten bs') ≡ total w (flatten bs)

  pub replicate-IsPlaced : (n : ℕ) → IsPlaced {V = V} (replicate n [])
  unfolding total
  replicate-IsPlaced n = record {
    once = λ q i. rw (get_or-replicate n i) (omega arith);
    home = λ q i h. rw (get_or-replicate n i);
  }

  pub find-replicate : (n : ℕ) (q : Bytes) → find q (chain_of {V = V} (replicate n []) q) ≡ none
  unfolding chain_of find
  find-replicate n q = rw get_or-replicate

  pub total-replicate : (n : ℕ) (w : Bytes → V → ℕ) → total w (flatten (replicate n [])) ≡ 0
  unfolding total
  total-replicate n w = rw (flatten-replicate n)

  relink-append :
      (a b : Chain V) (bs : List (Chain V)) → relink (a ++ b) bs ≡ relink b (relink a bs)
  unfolding relink
  relink-append [] b bs = refl
  relink-append ((k, v) ∷ a) b bs = relink-append a b (link k v bs)

  -- The two nested loops relink all the nodes in the order of `ForEach`.
  relink_all-flatten : (old bs : List (Chain V)) → relink_all old bs ≡ relink (flatten old) bs
  unfolding relink_all flatten relink
  relink_all-flatten [] bs = refl
  relink_all-flatten (c ∷ cs) bs =
      relink_all-flatten cs (relink c bs) ∙ sym (relink-append c (flatten cs) bs)

  record Relinks (es : Chain V) (bs bs' : List (Chain V)) : Type ℓ where
    width : length bs' ≡ length bs
    placed : IsPlaced bs'
    reads : (q : Bytes) → find q (chain_of bs' q) ≡ or_else (find q (chain_of bs q)) (find q es)
    totals : (w : Bytes → V → ℕ) → total w (flatten bs') ≡ total w (flatten bs) + total w es

  relink-Relinks :
      (es : Chain V) (bs : List (Chain V))
      → 0 < length bs
      → IsPlaced bs
      → ((q : Bytes) → occurs q es ≤ 1)
      → ((q : Bytes) → 1 ≤ occurs q es → find q (chain_of bs q) ≡ none)
      → Relinks es bs (relink es bs)
  unfolding relink find total
  relink-Relinks [] bs pos p once apart = record {
    width = refl;
    placed = p;
    reads = λ q. ground arith;
    totals = λ w. omega arith;
  }
  relink-Relinks ((k, v) ∷ es) bs pos p once apart =
      let fresh = apart k (rw (str_eq_refl k) (omega arith)) in
      let step = link-Rebinds bs pos p k v fresh in
      let rest =
        relink-Relinks es (link k v bs) (rw step.width pos) step.placed (λ q. omega (arith, once q))
          (λ q h. ground (arith, step.reads q, once q, apart q, str_eq_iff k q)) in
      record {
        width = rest.width ∙ step.width;
        placed = rest.placed;
        reads = λ q.
            ground
              (arith, rest.reads q, step.reads q, apart q, str_eq_iff k q, find-none q es, once q);
        totals = λ w. omega (arith, rest.totals w, rw fresh at (step.totals w));
      }

  -- RehashTo to any positive capacity, on buckets where each node is in the bucket of its key and
  -- no key is twice, keeps that, every binding and every total, and makes that many buckets.
  pub rehash_to-SameBindings :
      (n : ℕ) (t : HashTable V)
      → 0 < n
      → IsPlaced t.buckets
      → SameBindings t.buckets (rehash_to n t).buckets × (length (rehash_to n t).buckets ≡ n)
  unfolding rehash_to
  rehash_to-SameBindings n t pos p =
      let es = flatten t.buckets in
      let r =
        relink-Relinks es (replicate n []) (rw (length-replicate n) pos) (replicate-IsPlaced n)
          (λ q. occurs-flatten-le t.buckets q p) (λ q _. find-replicate n q) in
      rw (relink_all-flatten t.buckets (replicate n [])) (
        record {
          placed = r.placed;
          reads = λ q. r.reads q ∙ rw (find-replicate n q) (find-flatten t.buckets q p);
          totals = λ w. omega (arith, r.totals w, total-replicate n w);
        },
        r.width ∙ length-replicate n [],
      )
