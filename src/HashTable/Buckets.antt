-- ===== src/HashTable/Buckets.antt =====
-- The bucket vector of src/store/hash_table.h as a function from keys to values, and what a
-- replacement of one chain does to it.
use mathlib.Core.List.{flatten}
use redis_cpp.Base.{
  ℕ, zero, suc, ◌+◌, ◌≤◌, ◌<◌, ◌≡◌, ◌≢◌, refl, sym, ◌∙◌, false, Option, none, some, List, [], ◌∷◌,
  arith, if◌then◌else◌, Bytes, str_eq, str_eq_iff, length, get_or, set, get_or-set, length-set,
  Option-cases,
}
use redis_cpp.Base.Bits.{bit_and_mask-lt}
use redis_cpp.HashTable.Nodes.{
  Chain, find, assign, unlink, total, weight, at_key, occurs, total-append, find-append, find-none,
  occurs-zero, find-assign, find-unlink, total-assign, total-unlink,
}
use redis_cpp.HashTable.{hash_key, bucket_index, chain_of, link}

-- The masked hash is an index of the vector.
pub bucket_index-lt :
    (key : Bytes) (capacity : ℕ) → 0 < capacity → bucket_index key capacity < capacity
unfolding bucket_index
bucket_index-lt key capacity h = bit_and_mask-lt (hash_key key) capacity h

module _ {ℓ} {V : Type ℓ} where
  pub total-flatten-set :
      (w : Bytes → V → ℕ) (bs : List (Chain V)) (i : ℕ) (c : Chain V)
      → i < length bs
      → total w (flatten (set bs i c)) + total w (get_or bs i []) ≡ total w (flatten bs) + total w c
  unfolding get_or flatten
  total-flatten-set w [] i c h = absurd (omega arith)
  total-flatten-set w (x ∷ bs) zero c h = simp total-append (omega arith)
  total-flatten-set w (x ∷ bs) (suc i) c h =
      simp total-append (omega (arith, total-flatten-set w bs i c (omega arith)))

  -- A key has at most one node, and that one in the bucket of its hash.
  pub record IsPlaced (bs : List (Chain V)) : Type ℓ where
    pub once : (q : Bytes) (i : ℕ) → occurs q (get_or bs i []) ≤ 1
    pub home : (q : Bytes) (i : ℕ) → bucket_index q (length bs) ≢ i → occurs q (get_or bs i []) ≡ 0

  occurs-nowhere :
      (q : Bytes) (bs : List (Chain V))
      → ((i : ℕ) → occurs q (get_or bs i []) ≡ 0)
      → occurs q (flatten bs) ≡ 0
  unfolding flatten get_or total
  occurs-nowhere q [] h = refl
  occurs-nowhere q (c ∷ cs) h =
      omega
        (arith, total-append (at_key q) c (flatten cs), h 0, occurs-nowhere q cs (λ i. h (suc i)))

  flatten-only :
      (q : Bytes) (bs : List (Chain V)) (j : ℕ)
      → ((i : ℕ) → i ≢ j → occurs q (get_or bs i []) ≡ 0)
      → (find q (flatten bs) ≡ find q (get_or bs j []))
        × (occurs q (flatten bs) ≡ occurs q (get_or bs j []))
  unfolding flatten get_or
  flatten-only q [] j h = (refl, refl)
  flatten-only q (c ∷ cs) zero h =
      let rest = occurs-nowhere q cs (λ i. h (suc i) (omega arith)) in
      (
        find-append q c (flatten cs) ∙ rw (find-none q (flatten cs) rest) (ground arith),
        omega (arith, total-append (at_key q) c (flatten cs), rest),
      )
  flatten-only q (c ∷ cs) (suc j) h =
      let here = h 0 (omega arith) in
      let (found, counted) = flatten-only q cs j (λ i n. h (suc i) (omega arith)) in
      (
        find-append q c (flatten cs) ∙ rw (find-none q c here) found,
        omega (arith, total-append (at_key q) c (flatten cs), here, counted),
      )

  -- All the nodes together answer a lookup as the one bucket does.
  pub find-flatten :
      (bs : List (Chain V)) (q : Bytes) → IsPlaced bs → find q (flatten bs) ≡ find q (chain_of bs q)
  unfolding chain_of
  find-flatten bs q p = (flatten-only q bs _ (λ i n. p.home q i (λ e. n (sym e)))).0

  pub occurs-flatten-le :
      (bs : List (Chain V)) (q : Bytes) → IsPlaced bs → occurs q (flatten bs) ≤ 1
  occurs-flatten-le bs q p = omega (
    arith,
    (flatten-only q bs _ (λ i n. p.home q i (λ e. n (sym e)))).1,
    p.once q (bucket_index q (length bs)),
  )

  -- `bs'` is `bs` with `o` bound to the key `k`, all else kept.
  pub record Rebinds (bs : List (Chain V)) (k : Bytes) (o : Option V) (bs' : List (Chain V))
      : Type ℓ where
    pub width : length bs' ≡ length bs
    pub placed : IsPlaced bs'
    pub reads :
        (q : Bytes) → find q (chain_of bs' q) ≡ (if str_eq k q then o else find q (chain_of bs q))
    pub totals :
        (w : Bytes → V → ℕ)
        → total w (flatten bs') + weight w k (find k (chain_of bs k))
          ≡ total w (flatten bs) + weight w k o

  module _ (bs : List (Chain V)) (pos : 0 < length bs) (p : IsPlaced bs) (k : Bytes) where
    replace_once :
        (o : Option V) (c : Chain V) (q : Bytes)
        → occurs q c + weight (at_key q) k (find k (chain_of bs k))
          ≡ occurs q (chain_of bs k) + weight (at_key q) k o
        → (occurs q c ≤ 1) × (str_eq k q ≡ false → occurs q c ≡ occurs q (chain_of bs k))
    unfolding chain_of
    replace_once o c q h = ground (
      arith,
      p.once q (bucket_index k (length bs)),
      Option-cases (find k (get_or bs (bucket_index k (length bs)) [])),
      occurs-zero k (get_or bs (bucket_index k (length bs)) []),
      str_eq_iff k q,
    )

    pub replace-Rebinds :
        (o : Option V) (c : Chain V)
        → ((q : Bytes) → find q c ≡ (if str_eq k q then o else find q (chain_of bs k)))
        → ((w : Bytes → V → ℕ)
            → total w c + weight w k (find k (chain_of bs k))
              ≡ total w (chain_of bs k) + weight w k o)
        → Rebinds bs k o (set bs (bucket_index k (length bs)) c)
    unfolding chain_of
    replace-Rebinds o c reads totals =
        let i = bucket_index k (length bs) in
        let inside : i < length bs = bucket_index-lt k (length bs) pos in
        record {
          width = length-set bs i c;
          placed = record {
            once = λ q j.
                rw (get_or-set bs i j c [] inside)
                  (ground (arith, replace_once o c q (totals (at_key q)), p.once q j));
            home = λ q j h. rw (get_or-set bs i j c [] inside) (
                ground (
                  arith,
                  rw (length-set bs i c) at h,
                  replace_once o c q (totals (at_key q)),
                  p.home q j,
                  str_eq_iff k q,
                ));
          };
          reads = λ q.
              rw (length-set bs i c, get_or-set bs i _ c [] inside)
                (ground (arith, reads q, str_eq_iff k q));
          totals = λ w. omega (arith, totals w, total-flatten-set w bs i c inside);
        }

    -- A new node at the head of its chain.
    pub link-Rebinds : (v : V) → find k (chain_of bs k) ≡ none → Rebinds bs k (some v) (link k v bs)
    unfolding link find total
    link-Rebinds v absent =
        replace-Rebinds (some v) ((k, v) ∷ chain_of bs k) (λ q. refl) (λ w. rw absent (omega arith))

    -- An assignment to the node of the key.
    pub assign-Rebinds :
        (v old : V)
        → find k (chain_of bs k) ≡ some old
        → Rebinds bs k (some v) (set bs (bucket_index k (length bs)) (assign k v (chain_of bs k)))
    assign-Rebinds v old found =
        replace-Rebinds (some v) (assign k v (chain_of bs k))
          (λ q. find-assign k q v (chain_of bs k) old found)
          (λ w. rw found (total-assign w k v (chain_of bs k) old found))

    -- A node unlinked.
    pub unlink-Rebinds :
        (old : V)
        → find k (chain_of bs k) ≡ some old
        → Rebinds bs k none (set bs (bucket_index k (length bs)) (unlink k (chain_of bs k)))
    unfolding chain_of
    unlink-Rebinds old found =
        replace-Rebinds none (unlink k (chain_of bs k))
          (λ q. find-unlink k q (chain_of bs k) (p.once q _))
          (λ w. rw found (omega (arith, total-unlink w k (chain_of bs k) old found)))
