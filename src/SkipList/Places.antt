-- ===== src/SkipList/Places.antt =====
-- src/dsa/skiplist.hpp: where the nodes of a list lie, and how their keys compare.
use Prim.Native.Nat.Ordering.{lt, eq, gt}
use vector_db.Prelude.{
  ℕ, ◌≤◌, ◌<◌, ◌≡◌, ◌≢◌, refl, true, false, Option, List, [], ◌∷◌, All, All-weaken, Pairwise,
  Pairwise-weaken, arith, length, lt-length_of_get_elem?,
}
use vector_db.Prelude.Order.{Ord}
use vector_db.SkipList.{Node, SkipList, key_lt, key_eq}
use vector_db.SkipList.Cells.{Cell, Chain, IsApart}
use vector_db.SkipList.Find.{IsList, head_cell, IsInner, IsBefore}

module _ {ℓ} {K : Type ℓ} ⦃o : Ord K⦄ where
  pub three_way-of_key_lt : (a b : K) → key_lt a b ≡ true → o.three_way a b ≡ lt
  unfolding key_lt
  three_way-of_key_lt a b h = ground arith

  pub three_way-of_key_eq : (a b : K) → key_eq a b ≡ true → o.three_way a b ≡ eq
  unfolding key_eq
  three_way-of_key_eq a b h = ground arith

  pub three_way-gt : (a b : K) → key_lt a b ≡ false → key_eq a b ≡ false → o.three_way a b ≡ gt
  unfolding key_lt key_eq
  three_way-gt a b h e = ground arith

  pub eq_of_key_eq : (a b : K) → key_eq a b ≡ true → a ≡ b
  eq_of_key_eq a b h = o.eq_of_compare a b (three_way-of_key_eq a b h)

  pub key_eq-lt : (a b : K) → o.three_way a b ≡ lt → key_eq a b ≡ false
  unfolding key_eq
  key_eq-lt a b h = rw (key_eq, h) refl

  pub key_eq-gt : (a b : K) → o.three_way a b ≡ gt → key_eq a b ≡ false
  unfolding key_eq
  key_eq-gt a b h = rw (key_eq, h) refl

  pub key_eq_self : (a : K) → key_eq a a ≡ true
  unfolding key_eq
  key_eq_self a = rw (key_eq, o.compare_self a) refl

Chain-lt {ℓ κ} :
    {K : Type ℓ} {V : Type κ} (nodes : List (Option (Node K V))) (cs : List (Cell K V)) (q : ℕ)
    → Chain nodes cs q
    → All (λ (c : Cell K V). c.ptr < length nodes) cs
Chain-lt nodes [] q h = tt
Chain-lt nodes (c ∷ cs) q (e, h) = (lt-length_of_get_elem? nodes c.ptr e, Chain-lt nodes cs q h)

module _ {ℓ κ} {K : Type ℓ} ⦃o : Ord K⦄ {V : Type κ} (least greatest : K) (nothing : V)
    {l : SkipList K V} {xs : List (Cell K V)} (h : IsList least greatest nothing l xs) where
  pub all-IsApart : Pairwise IsApart (head_cell least greatest nothing ∷ xs)
  all-IsApart = (
    All-weaken (IsInner least greatest nothing) (IsApart (head_cell least greatest nothing)) xs
        (λ c i. omega (arith, i.0)) h.inner,
    Pairwise-weaken (IsBefore least greatest nothing) IsApart xs (λ a b r. r.0) h.ordered,
  )

  pub all-lt :
      All (λ (c : Cell K V). c.ptr < length l.nodes) (head_cell least greatest nothing ∷ xs)
  all-lt = Chain-lt l.nodes (head_cell least greatest nothing ∷ xs) 1 h.chain

  pub two-le : 2 ≤ length l.nodes
  two-le = lt-length_of_get_elem? l.nodes 1 h.tail_at

  pub not_tail : All (λ (c : Cell K V). 1 ≢ c.ptr) (head_cell least greatest nothing ∷ xs)
  not_tail = (
    omega arith,
    All-weaken (IsInner least greatest nothing) _ xs (λ c i. omega (arith, i.0)) h.inner,
  )
