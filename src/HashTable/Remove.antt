-- ===== src/HashTable/Remove.antt =====
-- `lookup` and `remove` of src/dsa/hashtable.hpp's `HTable`, and the three operations as operations on
-- stacks.

use vector_db.Prelude.{
  ℕ, ◌+◌, ◌-◌, ◌≤◌, ◌≡◌, refl, sym, ap, false, Option, none, some, [], arith, if◌then◌else◌, length,
  get_or, length-set, inl, inr, ◌∙◌, Option-cases, Bool-cases,
}
use vector_db.Prelude.Outcome.{ret}
use vector_db.Hash.{Key}
use vector_db.HashTable.{
  HTable, no_buckets, position, bucket, link, insert, find_in, lookup, unlink, remove,
}
use vector_db.HashTable.Chain.{
  matching, top, pop, find_in-top, matching-unlink, length-unlink, All-unlink,
}
use vector_db.HashTable.Valid.{
  length-le-total, IsValid, stack, rehang, rehang-IsValid, stack-rehang, buckets_empty,
  buckets_used, Inserted, link-Inserted, insert-ret, ready,
}

-- The number of nodes after one is taken out, or none.
abbrev pub without {κ} : {V : Type κ} → Option V → ℕ → ℕ
without none n = n
without (some _) n = n - 1

module _ {ℓ κ} {K : Type ℓ} {V : Type κ} ⦃key : Key K⦄ where
  pub lookup-top : (t : HTable K V) (k : K) → lookup t k ≡ top (stack t k)
  unfolding lookup
  lookup-top t k = elim (Bool-cases (no_buckets t)) [
    | inl e ↦
        rw (e, lookup)
          (ap (λ bs. top (matching k (get_or bs (position t k) []))) (sym (buckets_empty t e)))
    | inr e ↦ rw (e, lookup) (find_in-top (bucket t k) k)
  ]

  -- What `remove` promises of its result.
  pub record Removed (t : HTable K V) (k : K) (r : Option V × HTable K V) : Type (ℓ ⊔ κ) where
    pub value : r.0 ≡ top (stack t k)
    pub valid : IsValid r.1
    pub stacks : (j : K) → stack r.1 j ≡ (if key.beq k j then pop (stack t j) else stack t j)
    pub smaller : r.1.size ≤ t.size
    pub counted : r.1.size ≡ without r.0 t.size
    pub kept : (r.1.mask ≡ t.mask) × (no_buckets r.1 ≡ no_buckets t)

  -- Nothing to remove.
  absent-Removed :
      (t : HTable K V) (k : K) → IsValid t → top (stack t k) ≡ none → Removed t k (none, t)
  absent-Removed t k valid h = record {
    value = sym h;
    valid = valid;
    stacks = λ j. ground (arith, key.beq_iff k j, h);
    smaller = omega arith;
    counted = refl;
    kept = (refl, refl);
  }

  no_buckets-used : (t : HTable K V) → length t.buckets ≡ t.mask + 1 → no_buckets t ≡ false
  no_buckets-used t h = ground arith

  -- A node is taken out of its chain.
  unlink-Removed :
      (t : HTable K V) (k : K) (v : V)
      → IsValid t
      → length t.buckets ≡ t.mask + 1
      → find_in (bucket t k) k ≡ some v
      → Removed t k (some v, rehang t k (unlink (bucket t k) k) (t.size - 1))
  unlink-Removed t k v valid used f =
      let c = unlink (bucket t k) k in
      let gone = length-unlink (bucket t k) k v f in
      let some_node = length-le-total t.buckets (position t k) in
      record {
        value = sym f ∙ find_in-top (bucket t k) k;
        valid =
            rehang-IsValid t k c (t.size - 1) used valid
              (All-unlink _ (bucket t k) k (valid.placed (position t k)))
              (omega (arith, valid.counted));
        stacks = λ j. ground (
          arith,
          stack-rehang t k c (t.size - 1) used j,
          matching-unlink (bucket t k) k j,
          key.beq_iff k j,
        );
        smaller = omega arith;
        counted = refl;
        kept = (
          refl,
          no_buckets-used (rehang t k c (t.size - 1)) (length-set t.buckets (position t k) c ∙ used)
              ∙ sym (no_buckets-used t used),
        );
      }

  pub remove-Removed : (t : HTable K V) (k : K) → IsValid t → Removed t k (remove t k)
  unfolding remove
  remove-Removed t k valid = elim (Bool-cases (no_buckets t)) [
    | inl e ↦
        rw (e, remove)
          (absent-Removed t k valid
            (ap (λ bs. top (matching k (get_or bs (position t k) []))) (buckets_empty t e)))
    | inr e ↦ elim (Option-cases (find_in (bucket t k) k)) [
      | inl f ↦ rw (e, f, remove) (absent-Removed t k valid (sym (find_in-top (bucket t k) k) ∙ f))
      | inr (v, f) ↦ rw (e, f, remove) (unlink-Removed t k v valid (buckets_used t e valid) f)
    ]
  ]

  -- A valid table holds one stack of values for each key. `insert` returns a valid table, on whose
  -- stack of the key the value is pushed; `lookup` reads the top of the key's stack, or none;
  -- `remove` returns that top and pops it, and leaves a valid table. The stacks of other keys stay.
  pub table_refines_stacks :
      (t : HTable K V) (k : K) (v : V)
      → IsValid t
      → ((u : HTable K V) × (insert t k v ≡ ret u) × Inserted t k v u)
        × (lookup t k ≡ top (stack t k))
        × Removed t k (remove t k)
  table_refines_stacks t k v valid = (
    (link (ready t) k v, insert-ret t k v, link-Inserted t k v valid),
    lookup-top t k,
    remove-Removed t k valid,
  )
