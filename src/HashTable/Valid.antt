-- ===== src/HashTable/Valid.antt =====
-- The invariant of src/dsa/hashtable.hpp's `HTable`, and what `insert`, `lookup` and `remove` do to the
-- stacks of values that it holds.
use Prim.Native.Nat.{bit_and}
use vector_db.Prelude.{
  ℕ, zero, suc, ◌+◌, ◌<◌, ◌≤◌, ◌≡◌, refl, sym, ap, true, false, List, [], ◌∷◌, arith, if◌then◌else◌,
  length, get_or, set, get_or-set, length-set, All, bit_and-le, ◌⊎◌, inl, inr, ◌==◌, ==_iff, ◌∙◌,
  Bool-cases,
}
use vector_db.Prelude.Outcome.{ret}
use vector_db.Hash.{Key}
use vector_db.HashTable.{
  HNode, Chain, HTable, empty_table, no_buckets, position, bucket, link, insert, new_table,
  k_min_cap,
}
use vector_db.HashTable.Chain.{matching}

module _ {ℓ κ} {K : Type ℓ} {V : Type κ} where
  -- The number of nodes.
  abbrev pub total : List (Chain K V) → ℕ
  total [] = 0
  total (c ∷ bs) = length c + total bs

  pub total-set :
      (bs : List (Chain K V)) (i : ℕ) (c : Chain K V)
      → i < length bs
      → total (set bs i c) + length (get_or bs i []) ≡ total bs + length c
  total-set [] i c h = absurd (omega arith)
  total-set (b ∷ bs) zero c h = omega arith
  total-set (b ∷ bs) (suc i) c h = omega (arith, total-set bs i c (omega arith))

  pub length-le-total : (bs : List (Chain K V)) (i : ℕ) → length (get_or bs i []) ≤ total bs
  length-le-total [] i = omega arith
  length-le-total (b ∷ bs) zero = omega arith
  length-le-total (b ∷ bs) (suc i) = omega (arith, length-le-total bs i)

module _ {ℓ κ} {K : Type ℓ} {V : Type κ} ⦃key : Key K⦄ where
  -- The node is in bucket `i` of a table with this mask, and carries the hash of its key.
  abbrev pub Placed : ℕ → ℕ → HNode K V → Type 0
  Placed mask i n = (n.hcode ≡ key.hash n.key) × (bit_and (key.hash n.key) mask ≡ i)

  -- A table in use has `mask_ + 1` buckets; each node stands in its bucket; `size_` is the number of
  -- nodes.
  pub record IsValid (t : HTable K V) : Type (ℓ ⊔ κ) where
    pub shape : (t.buckets ≡ []) ⊎ (length t.buckets ≡ t.mask + 1)
    pub counted : t.size ≡ total t.buckets
    pub placed : (i : ℕ) → All (Placed t.mask i) (get_or t.buckets i [])

  -- The values of a key that the table holds, the newest first.
  abbrev pub stack : HTable K V → K → List V
  stack t k = matching k (bucket t k)

  position-lt :
      (t : HTable K V) (k : K) → length t.buckets ≡ t.mask + 1 → position t k < length t.buckets
  position-lt t k h = omega (arith, bit_and-le (key.hash k) t.mask)

  -- The table after the chain of `k` is replaced by `c`.
  abbrev pub rehang : HTable K V → K → Chain K V → ℕ → HTable K V
  rehang t k c s = record t { buckets = set t.buckets (position t k) c; size = s }

  module _ (t : HTable K V) (k : K) (c : Chain K V) (s : ℕ)
      (used : length t.buckets ≡ t.mask + 1) where
    bucket-rehang :
        (i : ℕ)
        → get_or (rehang t k c s).buckets i []
          ≡ (if position t k == i then c else get_or t.buckets i [])
    bucket-rehang i = get_or-set t.buckets (position t k) i c [] (position-lt t k used)

    pub rehang-IsValid :
        IsValid t
        → All (Placed t.mask (position t k)) c
        → s + length (bucket t k) ≡ t.size + length c
        → IsValid (rehang t k c s)
    rehang-IsValid valid placed counted = record {
      shape = inr (length-set t.buckets (position t k) c ∙ used);
      counted =
          omega (arith, valid.counted, total-set t.buckets (position t k) c (position-lt t k used));
      placed = λ i. elim (Bool-cases (position t k == i)) [
        | inl e ↦ rw (bucket-rehang i, e, ← (==_iff _ _).0 e) placed
        | inr e ↦ rw (bucket-rehang i, e) (valid.placed i)
      ];
    }

    pub stack-rehang :
        (j : K)
        → stack (rehang t k c s) j
          ≡ (if position t k == position t j then matching j c else stack t j)
    stack-rehang j = rw (bucket-rehang (position t j)) (ground arith)

  module _ (t : HTable K V) (k : K) (v : V) (valid : IsValid t)
      (used : length t.buckets ≡ t.mask + 1) where
    link-IsValid : IsValid (link t k v)
    unfolding link
    link-IsValid =
        rehang-IsValid t k _ _ used valid ((refl, refl), valid.placed (position t k)) (omega arith)

    length-link : length (link t k v).buckets ≡ (link t k v).mask + 1
    unfolding link
    length-link = length-set t.buckets (position t k) _ ∙ used

    size-link : (link t k v).size ≡ t.size + 1
    unfolding link
    size-link = refl

    mask-link : (link t k v).mask ≡ t.mask
    unfolding link
    mask-link = refl

    stack-link : (j : K) → stack (link t k v) j ≡ (if key.beq k j then v ∷ stack t j else stack t j)
    unfolding link
    stack-link j = ground (
      arith,
      stack-rehang t k (record { key = k; value = v; hcode = key.hash k } ∷ bucket t k) (t.size + 1)
          used j,
      key.beq_iff k j,
    )

module _ {ℓ κ} {K : Type ℓ} {V : Type κ} where
  -- What `HTable(k_min_cap)` builds.
  abbrev pub fresh : HTable K V
  fresh = record { buckets = [] ∷ [] ∷ [] ∷ [] ∷ []; mask = 3; size = 0 }

  pub new_table-fresh : new_table {K = K} {V = V} k_min_cap ≡ ret fresh
  unfolding new_table
  new_table-fresh = refl

  -- The table that `insert` links into.
  abbrev pub ready : HTable K V → HTable K V
  ready t = if no_buckets t then fresh else t

module _ {ℓ κ} {K : Type ℓ} {V : Type κ} ⦃key : Key K⦄ where
  pub empty_table-IsValid : IsValid {K = K} {V = V} empty_table
  empty_table-IsValid = record { shape = inl refl; counted = refl; placed = λ i. tt }

  fresh_bucket : (i : ℕ) → get_or {A = Chain K V} fresh.buckets i [] ≡ []
  fresh_bucket i = ground arith

  pub fresh-IsValid : IsValid {K = K} {V = V} fresh
  fresh-IsValid = record { shape = inr refl; counted = refl; placed = λ i. rw (fresh_bucket i) tt }

  pub buckets_empty : (t : HTable K V) → no_buckets t ≡ true → t.buckets ≡ []
  buckets_empty t h = ground arith

  pub buckets_used :
      (t : HTable K V) → no_buckets t ≡ false → IsValid t → length t.buckets ≡ t.mask + 1
  buckets_used t h valid = ground (arith, valid.shape)

  -- Making a table ready keeps its stacks and its size.
  pub record Ready (t u : HTable K V) : Type (ℓ ⊔ κ) where
    pub valid : IsValid u
    pub used : length u.buckets ≡ u.mask + 1
    pub stacks : (j : K) → stack u j ≡ stack t j
    pub sized : u.size ≡ t.size

  pub ready-Ready : (t : HTable K V) → IsValid t → Ready t (ready t)
  ready-Ready t v = elim (Bool-cases (no_buckets t)) [
    | inl e ↦ rw e (record {
      valid = fresh-IsValid;
      used = refl;
      stacks = λ j.
          rw (fresh_bucket (position fresh j))
            (ap (λ bs. matching j (get_or bs (position t j) [])) (sym (buckets_empty t e)));
      sized = sym (v.counted ∙ ap total (buckets_empty t e));
    })
    | inr e ↦
        rw e (record { valid = v; used = buckets_used t e v; stacks = λ j. refl; sized = refl })
  ]

  -- What `insert` promises of its result.
  pub record Inserted (t : HTable K V) (k : K) (v : V) (u : HTable K V) : Type (ℓ ⊔ κ) where
    pub valid : IsValid u
    pub used : length u.buckets ≡ u.mask + 1
    pub stacks : (j : K) → stack u j ≡ (if key.beq k j then v ∷ stack t j else stack t j)
    pub sized : u.size ≡ t.size + 1
    pub kept : no_buckets t ≡ false → u.mask ≡ t.mask
    pub made : no_buckets t ≡ true → u.mask ≡ 3

  pub insert-ret : (t : HTable K V) (k : K) (v : V) → insert t k v ≡ ret (link (ready t) k v)
  unfolding insert
  insert-ret t k v = elim (Bool-cases (no_buckets t)) [ inl e ↦ rw e | inr e ↦ rw e ]

  pub link-Inserted :
      (t : HTable K V) (k : K) (v : V) → IsValid t → Inserted t k v (link (ready t) k v)
  link-Inserted t k v valid =
      let r = ready-Ready t valid in
      record {
        valid = link-IsValid (ready t) k v r.valid r.used;
        used = length-link (ready t) k v r.valid r.used;
        stacks = λ j. rw (stack-link (ready t) k v r.valid r.used j, r.stacks j);
        sized = rw (size-link (ready t) k v r.valid r.used, r.sized);
        kept = λ e. rw (mask-link (ready t) k v r.valid r.used, e);
        made = λ e. rw (mask-link (ready t) k v r.valid r.used, e);
      }
