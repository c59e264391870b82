-- ===== src/HashTable/Nodes.antt =====
-- One bucket of src/store/hash_table.h: the chain of nodes behind a `std::unique_ptr<Node>`.
use redis_cpp.Base.{
  ℕ, ◌+◌, ◌≤◌, ◌≡◌, refl, Option, none, some, List, [], ◌∷◌, ◌++◌, arith, if◌then◌else◌, to_nat,
  Bytes, str_eq, str_eq_iff,
}

-- A node's key and value, the head of the chain first.
abbrev pub Chain {ℓ} : Type ℓ → Type ℓ
Chain V = List (Bytes × V)

module _ {ℓ} {V : Type ℓ} where
  -- The loop `while (cur != nullptr)` of `Get`.
  unfoldable pub find : Bytes → Chain V → Option V
  find k [] = none
  find k ((j, v) ∷ c) = if str_eq j k then some v else find k c

  -- `cur->value = std::move(value)` at the first node with the key.
  unfoldable pub assign : Bytes → V → Chain V → Chain V
  assign k v [] = []
  assign k v ((j, u) ∷ c) = if str_eq j k then (j, v) ∷ c else (j, u) ∷ assign k v c

  -- `*prev_link = std::move(cur->next)` at the first node with the key.
  unfoldable pub unlink : Bytes → Chain V → Chain V
  unlink k [] = []
  unlink k ((j, u) ∷ c) = if str_eq j k then c else (j, u) ∷ unlink k c

  -- The sum of a weight over the nodes of a chain: their number, their bytes, ….
  unfoldable pub total : (Bytes → V → ℕ) → Chain V → ℕ
  total w [] = 0
  total w ((j, v) ∷ c) = w j v + total w c

  -- The weight of what a key is bound to.
  abbrev pub weight : (Bytes → V → ℕ) → Bytes → Option V → ℕ
  weight w k none = 0
  weight w k (some v) = w k v

  abbrev pub at_key : Bytes → Bytes → V → ℕ
  at_key q j v = to_nat (str_eq j q)

  -- How many nodes have the key.
  abbrev pub occurs : Bytes → Chain V → ℕ
  occurs q c = total (at_key q) c

  abbrev pub or_else : Option V → Option V → Option V
  or_else (some v) o = some v
  or_else none o = o

  pub total-append : (w : Bytes → V → ℕ) (a b : Chain V) → total w (a ++ b) ≡ total w a + total w b
  unfolding total
  total-append w [] b = omega arith
  total-append w (e ∷ a) b = omega (arith, total-append w a b)

  pub find-append : (q : Bytes) (a b : Chain V) → find q (a ++ b) ≡ or_else (find q a) (find q b)
  unfolding find
  find-append q [] b = refl
  find-append q ((j, v) ∷ a) b = ground (arith, find-append q a b)

  pub find-none : (q : Bytes) (c : Chain V) → occurs q c ≡ 0 → find q c ≡ none
  unfolding find total
  find-none q [] h = refl
  find-none q ((j, v) ∷ c) h = ground (arith, find-none q c)

  pub occurs-zero : (q : Bytes) (c : Chain V) → find q c ≡ none → occurs q c ≡ 0
  unfolding find total
  occurs-zero q [] h = refl
  occurs-zero q ((j, v) ∷ c) h = ground (arith, occurs-zero q c)

  pub occurs-pos : (q : Bytes) (c : Chain V) (v : V) → find q c ≡ some v → 1 ≤ occurs q c
  unfolding find total
  occurs-pos q [] v h = ground arith
  occurs-pos q ((j, u) ∷ c) v h = ground (arith, occurs-pos q c v)

  module _ (k q : Bytes) where
    pub find-assign :
        (v : V) (c : Chain V) (old : V)
        → find k c ≡ some old
        → find q (assign k v c) ≡ (if str_eq k q then some v else find q c)
    unfolding find assign
    find-assign v [] old h = ground arith
    find-assign v ((j, u) ∷ c) old h =
        ground (arith, find-assign v c old, str_eq_iff j k, str_eq_iff j q, str_eq_iff k q)

    pub find-unlink :
        (c : Chain V)
        → occurs q c ≤ 1
        → find q (unlink k c) ≡ (if str_eq k q then none else find q c)
    unfolding find unlink total
    find-unlink [] h = ground arith
    find-unlink ((j, u) ∷ c) h =
        ground (arith, find-unlink c, find-none q c, str_eq_iff j k, str_eq_iff j q, str_eq_iff k q)

  module _ (w : Bytes → V → ℕ) (k : Bytes) where
    pub total-assign :
        (v : V) (c : Chain V) (old : V)
        → find k c ≡ some old
        → total w (assign k v c) + w k old ≡ total w c + w k v
    unfolding find assign total
    total-assign v [] old h = ground arith
    total-assign v ((j, u) ∷ c) old h = ground (arith, total-assign v c old, str_eq_iff j k)

    pub total-unlink :
        (c : Chain V) (old : V) → find k c ≡ some old → total w (unlink k c) + w k old ≡ total w c
    unfolding find unlink total
    total-unlink [] old h = ground arith
    total-unlink ((j, u) ∷ c) old h = ground (arith, total-unlink c old, str_eq_iff j k)
