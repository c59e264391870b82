-- ===== src/HashTable/Methods.antt =====
-- The methods of src/store/hash_table.h keep the table well formed, and what each does to the
-- bindings, to the counter and to every sum over the entries.
use Prim.Native.Nat.{max, ◌*◌, ◌/◌, ◌^◌}
use native.Mathlib.Nat.{pow-suc}
use mathlib.Core.List.{flatten}
use redis_cpp.Base.{
  ℕ, zero, suc, ◌+◌, ◌≤◌, ◌<◌, ◌≡◌, refl, sym, ◌∙◌, none, some, Option, arith, leb, Bytes, to_nat,
  str_eq_iff, length, inl, inr, Option-cases, Bool-cases,
}
use redis_cpp.Base.Bits.{pow-pos}
use redis_cpp.HashTable.Nodes.{find, total, weight, occurs, occurs-zero, occurs-pos}
use redis_cpp.HashTable.Buckets.{
  Rebinds, link-Rebinds, assign-Rebinds, unlink-Rebinds, find-flatten, occurs-flatten-le,
}
use redis_cpp.HashTable.{
  HashTable, link, is_overloaded, is_loaded_enough, chain_of, resize, maybe_shrink, get, put_at,
  insert_new, set_key, delete, entries,
}
use redis_cpp.HashTable.Invariant.{is_some, one, IsValid, Binds, rehash-Binds, Rebinds-Binds}

pow-gap : (e : ℕ) → 8 < 2 ^ e → 16 ≤ 2 ^ e
pow-gap zero h = absurd (omega arith)
pow-gap (suc zero) h = absurd (omega arith)
pow-gap (suc (suc zero)) h = absurd (omega arith)
pow-gap (suc (suc (suc zero))) h = absurd (omega arith)
pow-gap (suc (suc (suc (suc e)))) h = omega (
  arith,
  pow-suc 2 e,
  pow-suc 2 (suc e),
  pow-suc 2 (suc (suc e)),
  pow-suc 2 (suc (suc (suc e))),
  pow-pos e,
)

-- Half of a capacity above the smallest is a capacity.
half_capacity :
    (e n : ℕ) → n ≡ 2 ^ e → 16 < n → (d : ℕ) × (max (n / 2) 16 ≡ 2 ^ d) × (max (n / 2) 16 * 2 ≡ n)
half_capacity zero n h big = absurd (omega arith)
half_capacity (suc d) n h big =
    let double : n ≡ 2 ^ d * 2 = h ∙ pow-suc 2 d in
    let gap = pow-gap d (omega arith) in (d, omega arith, omega arith)

module _ {ℓ} {V : Type ℓ} where
  pub put_at-Binds :
      (k : Bytes) (new old : V) (t : HashTable V)
      → IsValid t
      → get k t ≡ some old
      → Binds t k (some new) (put_at k new t)
  unfolding put_at
  put_at-Binds k new old t v found =
      let r =
        assign-Rebinds t.buckets (omega (arith, v.roomy)) v.placed k new old
          (unfold get in found) in
      Rebinds-Binds t _ k (some new) v r (rw found (omega arith)) (rw r.width v.sparse)

  insert_new-Binds :
      (k : Bytes) (new : V) (t : HashTable V)
      → IsValid t
      → get k t ≡ none
      → Binds t k (some new) (insert_new k new t)
  unfolding insert_new resize
  insert_new-Binds k new t v absent =
      let r =
        link-Rebinds t.buckets (omega (arith, v.roomy)) v.placed k new (unfold get in absent) in
      let grown : HashTable V = record {
        buckets = link k new t.buckets;
        num_entries = t.num_entries + 1;
      } in
      let count : t.num_entries + 1 + weight one k (get k t) ≡ t.num_entries + 1 =
        rw absent (omega arith) in
      elim (Bool-cases (is_overloaded grown)) [
        | inl over ↦ rw over (
            rehash-Binds t grown _ (suc v.exponent) k (some new) v r count
              (rw (r.width, v.capacity) (sym (pow-suc 2 v.exponent)))
              (rw r.width (omega (arith, v.roomy))) (rw r.width (omega (arith, v.sparse, v.roomy))))
        | inr fits ↦ rw fits (Rebinds-Binds t grown k (some new) v r count (ground arith))
      ]

  -- Set on a well-formed table returns whether the key was bound, and leaves a well-formed table
  -- with the key bound to the new value, every other key as before, and the total of any weight
  -- of the entries changed by that of this key alone.
  pub set_key-Binds :
      (k : Bytes) (new : V) (t : HashTable V)
      → IsValid t
      → ((set_key k new t).0 ≡ is_some (get k t)) × Binds t k (some new) (set_key k new t).1
  unfolding set_key
  set_key-Binds k new t v = elim (Option-cases (get k t)) [
    | inl absent ↦ rw (absent, set_key) (refl, insert_new-Binds k new t v absent)
    | inr (old, found) ↦ rw (found, set_key) (refl, put_at-Binds k new old t v found)
  ]

  maybe_shrink-Binds :
      (t t₁ : HashTable V) (k : Bytes) (o : Option V)
      → IsValid t
      → Rebinds t.buckets k o t₁.buckets
      → t₁.num_entries + weight one k (get k t) ≡ t.num_entries + weight one k o
      → 4 * t₁.num_entries ≤ 3 * length t₁.buckets
      → Binds t k o (maybe_shrink t₁)
  unfolding maybe_shrink
  maybe_shrink-Binds t t₁ k o v r count sparse =
      let stay = Rebinds-Binds t t₁ k o v r count sparse in
      elim (Bool-cases (leb (length t₁.buckets) 16)) [
        | inl small ↦ rw small stay
        | inr big ↦ elim (Bool-cases (is_loaded_enough t₁)) [
          | inl enough ↦ rw (big, enough) stay
          | inr light ↦
              let (d, power, twice) =
                half_capacity v.exponent (length t₁.buckets) (r.width ∙ v.capacity)
                  (ground arith) in
              let few : 16 * t₁.num_entries < 3 * length t₁.buckets = ground arith in
              rw (big, light)
                (rehash-Binds t t₁ _ d k o v r count power (omega arith)
                  (omega (arith, few, twice)))
        ]
      ]

  delete_absent : (k : Bytes) (t : HashTable V) → IsValid t → get k t ≡ none → Binds t k none t
  delete_absent k t v absent = record {
    valid = v;
    reads = λ q. ground (arith, str_eq_iff k q);
    totals = λ w. rw absent refl;
  }

  -- Delete on a well-formed table returns whether the key was bound, and leaves a well-formed
  -- table with the key unbound, every other key as before, and the total of any weight of the
  -- entries less by that of this key alone.
  pub delete-Binds :
      (k : Bytes) (t : HashTable V)
      → IsValid t
      → ((delete k t).0 ≡ is_some (get k t)) × Binds t k none (delete k t).1
  unfolding delete
  delete-Binds k t v = elim (Option-cases (get k t)) [
    | inl absent ↦ rw (absent, delete) (refl, delete_absent k t v absent)
    | inr (old, found) ↦
        let r =
          unlink-Rebinds t.buckets (omega (arith, v.roomy)) v.placed k old (unfold get in found) in
        let filled : 1 ≤ t.num_entries =
          let f : find k (chain_of t.buckets k) ≡ some old = unfold get in found in
          let n : total one (flatten t.buckets) ≡ t.num_entries = unfold entries in v.counted in
          omega (arith, rw f at (r.totals one), n) in
        rw (found, delete)
          (
            refl,
            maybe_shrink-Binds t _ k none v r (rw found (omega arith))
                (rw r.width (omega (arith, v.sparse))),
          )
  ]

  -- The entries that `ForEach` visits answer a lookup as `Get` does, and hold no key twice.
  pub find-entries : (t : HashTable V) (q : Bytes) → IsValid t → find q (entries t) ≡ get q t
  unfolding entries get
  find-entries t q v = find-flatten t.buckets q v.placed

  pub occurs-entries-le : (q : Bytes) (t : HashTable V) → IsValid t → occurs q (entries t) ≤ 1
  unfolding entries
  occurs-entries-le q t v = occurs-flatten-le t.buckets q v.placed

  -- ForEach on a well-formed table visits every bound key exactly once, and no other key.
  pub occurs-entries :
      (t : HashTable V) (q : Bytes) → IsValid t → occurs q (entries t) ≡ to_nat (is_some (get q t))
  occurs-entries t q v =
      let few = occurs-entries-le q t v in
      elim (Option-cases (get q t)) [
        | inl e ↦ rw e (occurs-zero q (entries t) (find-entries t q v ∙ e))
        | inr (u, e) ↦
            rw e (omega (arith, few, occurs-pos q (entries t) u (find-entries t q v ∙ e)))
      ]
