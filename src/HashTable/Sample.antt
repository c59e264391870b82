-- ===== src/HashTable/Sample.antt =====
-- `SampleKeys` of src/store/hash_table.h returns only entries of the table, at most `count` of them.
use redis_cpp.Base.{
  ℕ, zero, suc, ◌+◌, ◌*◌, ◌≤◌, ◌≡◌, refl, some, [], ◌∷◌, ◌++◌, arith, ltb, leb, ◌==◌, ==_iff, inl,
  inr, Bool-cases, Bytes, str_eq_refl, length, length-append, get_or, All, All-append,
}
use redis_cpp.HashTable.Nodes.{Chain, find, total, occurs}
use redis_cpp.HashTable.Invariant.{IsValid}
use redis_cpp.HashTable.{HashTable, bucket_index, chain_of, get, first, sample_loop, sample_keys}

module _ {ℓ} {V : Type ℓ} where
  -- The entry is what the table binds its key to.
  abbrev pub IsEntry : HashTable V → Bytes × V → Type ℓ
  IsEntry t e = get e.0 t ≡ some e.1

  first-IsEntry :
      (t : HashTable V) (v : IsValid t) (i : ℕ) (c : Chain V)
      → get_or t.buckets i [] ≡ c
      → All (IsEntry t) (first c)
  unfolding get chain_of find
  first-IsEntry t v i [] e = tt
  first-IsEntry t v i ((k, x) ∷ c) e =
      let present : 1 ≤ occurs k (get_or t.buckets i []) =
        rw e (unfold total in rw (str_eq_refl k) (omega arith)) in
      elim (Bool-cases (bucket_index k (length t.buckets) == i)) [
        | inl at_home ↦ (rw ((==_iff _ i).0 at_home, e, str_eq_refl k), tt)
        | inr away ↦ absurd (ground (arith, v.placed.home k i (λ h. cc (away, (==_iff _ i).1 h))))
      ]

  first-length : (c : Chain V) → length (first c) ≤ 1
  first-length [] = omega arith
  first-length (e ∷ c) = omega arith

  module _ (draw : ℕ → ℕ → ℕ) (t : HashTable V) (v : IsValid t) (count : ℕ) where
    sample_loop-lem :
        (left pos : ℕ) (out : Chain V)
        → All (IsEntry t) out
        → length out ≤ count
        → All (IsEntry t) (sample_loop draw t count left pos out).0
          × (length (sample_loop draw t count left pos out).0 ≤ count)
    unfolding sample_loop
    sample_loop-lem zero pos out all few = (all, few)
    sample_loop-lem (suc left) pos out all few =
        let c = get_or t.buckets (draw pos (length t.buckets)) [] in
        elim (Bool-cases (ltb (length out) count)) [
          | inr full ↦ rw full (all, few)
          | inl more ↦ rw more (
              sample_loop-lem left (pos + 1) (out ++ first c)
                (All-append (IsEntry t) out (first c) all (first-IsEntry t v _ c refl))
                (ground (arith, length-append out (first c), first-length c)))
        ]

    -- SampleKeys on a well-formed table, whatever is drawn, returns at most `count` entries, each
    -- with a key of the table and the value bound to it.
    pub sample_keys-lem :
        (pos : ℕ)
        → All (IsEntry t) (sample_keys draw count pos t).0
          × (length (sample_keys draw count pos t).0 ≤ count)
    unfolding sample_keys
    sample_keys-lem pos = elim (Bool-cases (leb t.num_entries 0)) [
      | inl none_there ↦ rw none_there (tt, omega arith)
      | inr some_there ↦ rw some_there (sample_loop-lem (count * 20) pos [] tt (omega arith))
    ]
