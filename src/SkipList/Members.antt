-- ===== src/SkipList/Members.antt =====
-- src/dsa/skiplist.hpp: the keys of a list, before and after the place of a key.
use Prim.Native.Nat.Ordering.{lt}
use vector_db.Prelude.{
  ◌≡◌, refl, sym, ◌∙◌, Bool, true, false, ◌||◌, Bool-cases, inl, inr, List, [], ◌∷◌, ◌++◌, All,
  Pairwise, All-right, All-weaken, Pairwise-right, Pairwise-before, arith,
}
use vector_db.Prelude.Order.{Ord}
use vector_db.SkipList.{SkipList, key_lt, key_eq}
use vector_db.SkipList.Cells.{Cell}
use vector_db.SkipList.Find.{IsBelow, IsAbove, IsList, node_before, IsInner, IsBefore}
use vector_db.SkipList.Places.{
  three_way-of_key_lt, three_way-gt, eq_of_key_eq, key_eq-lt, key_eq-gt,
}

module _ {ℓ κ} {K : Type ℓ} ⦃o : Ord K⦄ {V : Type κ} where
  abbrev pub has : K → List (Cell K V) → Bool
  has k [] = false
  has k (c ∷ cs) = key_eq c.key k || has k cs

  pub has-insert :
      (k : K) (ys zs : List (Cell K V)) (d : Cell K V)
      → has k (ys ++ d ∷ zs) ≡ (key_eq d.key k || has k (ys ++ zs))
  has-insert k [] zs d = refl
  has-insert k (y ∷ ys) zs d = ground (arith, has-insert k ys zs d)

  abbrev IsOther : K → Cell K V → Type 0
  IsOther k c = key_eq c.key k ≡ false

  has-others : (k : K) (cs : List (Cell K V)) → All (IsOther k) cs → has k cs ≡ false
  has-others k [] h = refl
  has-others k (c ∷ cs) (e, h) = rw (e, has-others k cs h)

  has-after : (k : K) (ys zs : List (Cell K V)) → All (IsOther k) ys → has k (ys ++ zs) ≡ has k zs
  has-after k [] zs h = refl
  has-after k (y ∷ ys) zs (e, h) = rw (e, has-after k ys zs h)

  IsOther-of_below : (k : K) (c : Cell K V) → IsBelow k c → IsOther k c
  IsOther-of_below k c h = key_eq-lt c.key k (three_way-of_key_lt c.key k h)

  IsOther-of_lt : (k : K) (c : Cell K V) → o.three_way k c.key ≡ lt → IsOther k c
  IsOther-of_lt k c h = key_eq-gt c.key k (o.flip_lt k c.key h)

  module _ (least greatest : K) (nothing : V) {l : SkipList K V} (ys zs : List (Cell K V))
      (h : IsList least greatest nothing l (ys ++ zs)) (k : K) (max : key_lt greatest k ≡ false)
      (below : All (IsBelow k) ys) (above : IsAbove k zs) where
    -- Where the key is not there, those after its place are greater.
    pub after-place :
        key_eq (node_before least greatest nothing zs).key k ≡ false
        → All (λ (c : Cell K V). o.three_way k c.key ≡ lt) zs × (o.three_way k greatest ≡ lt)
    after-place =
        go zs above (All-right (IsInner least greatest nothing) ys zs h.inner)
          (Pairwise-right (IsBefore least greatest nothing) ys zs h.ordered)
      where
        go :
            (cs : List (Cell K V))
            → IsAbove k cs
            → All (IsInner least greatest nothing) cs
            → Pairwise (IsBefore least greatest nothing) cs
            → key_eq (node_before least greatest nothing cs).key k ≡ false
            → All (λ (c : Cell K V). o.three_way k c.key ≡ lt) cs × (o.three_way k greatest ≡ lt)
        go [] a i p e = (tt, o.flip_gt greatest k (three_way-gt greatest k max e))
        go (c ∷ cs) a (i, _) (p, _) e =
            let up = o.flip_gt c.key k (three_way-gt c.key k a e) in
            (
              (
                up,
                All-weaken (IsBefore least greatest nothing c) _ cs
                    (λ d r. o.lt_chain k c.key d.key up r.1) p,
              ),
              o.lt_chain k c.key greatest up i.2,
            )

    at-place :
        (cs : List (Cell K V))
        → key_eq (node_before least greatest nothing cs).key k ≡ true
        → (key_eq greatest k || has k (ys ++ cs)) ≡ true
    at-place [] e = rw e
    at-place (c ∷ cs) e = ground (arith, has-insert k ys cs c)

    -- The key is there, or is that of a sentinel, if the node at its place has it.
    pub key-at_place :
        key_eq (node_before least greatest nothing zs).key k
        ≡ (key_eq greatest k || has k (ys ++ zs))
    key-at_place = elim (Bool-cases (key_eq (node_before least greatest nothing zs).key k)) [
      | inl e ↦ e ∙ sym (at-place zs e)
      | inr e ↦
          let (up, small) = after-place e in
          rw (
            e,
            key_eq-gt greatest k (o.flip_lt k greatest small),
            has-after k ys zs (All-weaken (IsBelow k) (IsOther k) ys (IsOther-of_below k) below),
            has-others k zs (All-weaken _ (IsOther k) zs (IsOther-of_lt k) up),
          )
    ]

  -- The other cells of a list have other keys, and so has the sentinel.
  pub others-of_cell :
      (least greatest : K) (nothing : V) {l : SkipList K V} (ys zs : List (Cell K V)) (d : Cell K V)
      → IsList least greatest nothing l (ys ++ d ∷ zs)
      → (k : K) → key_eq d.key k ≡ true
      → (key_eq greatest k || has k (ys ++ zs)) ≡ false
  others-of_cell least greatest nothing ys zs d h k e =
      let same = eq_of_key_eq d.key k e in
      let (up, after) = Pairwise-right (IsBefore least greatest nothing) ys (d ∷ zs) h.ordered in
      let inner = (All-right (IsInner least greatest nothing) ys (d ∷ zs) h.inner).0 in
      let left : All (IsOther d.key) ys =
        All-weaken (λ c. IsBefore least greatest nothing c d) (IsOther d.key) ys
          (λ c r. key_eq-lt c.key d.key r.1)
          (Pairwise-before (IsBefore least greatest nothing) ys zs d h.ordered) in
      let right : All (IsOther d.key) zs =
        All-weaken (IsBefore least greatest nothing d) (IsOther d.key) zs
          (λ c r. IsOther-of_lt d.key c r.1) up in
      rw (
        ← same,
        key_eq-gt greatest d.key (o.flip_lt d.key greatest inner.2),
        has-after d.key ys zs left,
        has-others d.key zs right,
      )
