-- ===== src/Avl/Balance.antt =====
-- The balance of src/dsa/avl_locking.hpp's tree: what `rebalance`, `insert` and `remove` do to the
-- two fields of the root, with exact `depth` and `weight` fields and children whose depths differ by
-- one at most.
pub mod Depths
mod Rotations
use vector_db.Prelude.{
  ℕ, ◌+◌, ◌%◌, ◌^◌, ◌≤◌, ◌<◌, max, ◌≡◌, refl, arith, ltb, ltb→lt, ltb-false→le, Bool-cases, inl,
  inr,
}
use vector_db.Prelude.Order.{Ord, Ordering-cases}
use vector_db.Avl.{
  Tree, leaf, node, get_depth, get_weight, rebalance, fix, successor, remove_found, insert, remove,
  assign,
}
use vector_db.Avl.Balance.Depths.{IsBalanced, depth-le-weight, Repaired}
use vector_db.Avl.Balance.Rotations.{fix_left-Repaired, fix_right-Repaired}

module _ {ℓ κ} {K : Type ℓ} {V : Type κ} where
  rebalance-Repaired :
      (d w : ℕ) (l : Tree K V) (k : K) (v : V) (r : Tree K V)
      → IsBalanced l
      → IsBalanced r
      → 1 + get_weight l + get_weight r < 2 ^ 32
      → get_depth l ≤ get_depth r + 2
      → get_depth r ≤ get_depth l + 2
      → d ≡ 1 + max (get_depth l) (get_depth r)
      → w ≡ 1 + get_weight l + get_weight r
      → Repaired
          (get_depth l)
          (get_depth r)
          (get_weight l)
          (get_weight r)
          (rebalance (node d w l k v r))
  unfolding rebalance
  rebalance-Repaired d w l k v r bl br fits p q ed ew =
      let wl = depth-le-weight l bl in
      let wr = depth-le-weight r br in
      elim (Bool-cases (ltb ((get_depth r + 1) % 2 ^ 32) (get_depth l))) [
        | inl e ↦
            rw (e, rebalance)
              (fix_left-Repaired d w l k v r bl br fits (omega (arith, ltb→lt _ _ e)))
        | inr e ↦
            rw (e, rebalance)
              (elim (Bool-cases (ltb ((get_depth l + 1) % 2 ^ 32) (get_depth r))) [
                | inl f ↦
                    rw f (fix_right-Repaired d w l k v r bl br fits (omega (arith, ltb→lt _ _ f)))
                | inr f ↦ rw f (record {
                  balanced = (
                    ed,
                    ew,
                    omega (arith, ltb-false→le _ _ e),
                    omega (arith, ltb-false→le _ _ f),
                    bl,
                    br,
                  );
                  weight = ew;
                  deep = omega arith;
                  shallow = omega arith;
                  even = λ _ _. ed;
                })
              ])
      ]

  -- `fix` repairs a node whose children are balanced and differ by two at most.
  pub fix-Repaired :
      (d w : ℕ) (l : Tree K V) (k : K) (v : V) (r : Tree K V)
      → IsBalanced l
      → IsBalanced r
      → 1 + get_weight l + get_weight r < 2 ^ 32
      → get_depth l ≤ get_depth r + 2
      → get_depth r ≤ get_depth l + 2
      → Repaired (get_depth l) (get_depth r) (get_weight l) (get_weight r) (fix (node d w l k v r))
  unfolding fix
  fix-Repaired d w l k v r bl br fits p q =
      let wl = depth-le-weight l bl in
      let wr = depth-le-weight r br in
      rebalance-Repaired _ _ l k v r bl br fits p q (omega arith) (omega arith)

-- A change of one level at most.
abbrev pub Grown : ℕ → ℕ → Type 0
Grown a b = (a ≤ b) × (b ≤ a + 1)

-- What `insert` does to a tree of depth `d` and weight `w`, and what `remove` does.
pub record Stretched {ℓ κ} {K : Type ℓ} {V : Type κ} (d w : ℕ) (t : Tree K V) : Type 0 where
  pub balanced : IsBalanced t
  pub depth : Grown d (get_depth t)
  pub weight : Grown w (get_weight t)

pub record Shrunk {ℓ κ} {K : Type ℓ} {V : Type κ} (d w : ℕ) (t : Tree K V) : Type 0 where
  pub balanced : IsBalanced t
  pub depth : Grown (get_depth t) d
  pub weight : Grown (get_weight t) w

module _ {ℓ κ} {K : Type ℓ} {V : Type κ} (d w : ℕ) (l : Tree K V) (k : K) (v : V) (r c : Tree K V)
    (b : IsBalanced (node d w l k v r)) where
  fix-Stretched_left :
      w + 1 < 2 ^ 32
      → Stretched (get_depth l) (get_weight l) c
      → Stretched d w (fix (node d w c k v r))
  fix-Stretched_left fits s =
      let f = fix-Repaired d w c k v r s.balanced b.5 (omega arith) (omega arith) (omega arith) in
      record { balanced = f.balanced; depth = grind (arith, f.even); weight = omega arith }

  fix-Stretched_right :
      w + 1 < 2 ^ 32
      → Stretched (get_depth r) (get_weight r) c
      → Stretched d w (fix (node d w l k v c))
  fix-Stretched_right fits s =
      let f = fix-Repaired d w l k v c b.4 s.balanced (omega arith) (omega arith) (omega arith) in
      record { balanced = f.balanced; depth = grind (arith, f.even); weight = omega arith }

  fix-Shrunk_left :
      w < 2 ^ 32 → Shrunk (get_depth l) (get_weight l) c → Shrunk d w (fix (node d w c k v r))
  fix-Shrunk_left fits s =
      let f = fix-Repaired d w c k v r s.balanced b.5 (omega arith) (omega arith) (omega arith) in
      record { balanced = f.balanced; depth = grind (arith, f.even); weight = omega arith }

  fix-Shrunk_right :
      w < 2 ^ 32 → Shrunk (get_depth r) (get_weight r) c → Shrunk d w (fix (node d w l k v c))
  fix-Shrunk_right fits s =
      let f = fix-Repaired d w l k v c b.4 s.balanced (omega arith) (omega arith) (omega arith) in
      record { balanced = f.balanced; depth = grind (arith, f.even); weight = omega arith }

module _ {ℓ κ} {K : Type ℓ} {V : Type κ} ⦃o : Ord K⦄ where
  -- `insert` keeps the balance; the tree grows by one level and one node at most.
  pub insert-Stretched :
      (t : Tree K V) (q : K) (x : V)
      → IsBalanced t
      → get_weight t + 1 < 2 ^ 32
      → Stretched (get_depth t) (get_weight t) (insert t q x)
  unfolding insert
  insert-Stretched leaf q x b fits = record {
    balanced = omega arith;
    depth = omega arith;
    weight = omega arith;
  }
  insert-Stretched (node d w l k v r) q x b fits = elim (Ordering-cases (o.three_way q k)) [
    | inl e ↦
        rw (e, insert)
          (fix-Stretched_left d w l k v r (insert l q x) b fits
            (insert-Stretched l q x b.4 (omega arith)))
    | inr (inl e) ↦
        rw (e, insert) (record { balanced = b; depth = omega arith; weight = omega arith })
    | inr (inr e) ↦
        rw (e, insert)
          (fix-Stretched_right d w l k v r (insert r q x) b fits
            (insert-Stretched r q x b.5 (omega arith)))
  ]

  remove_found-Shrunk :
      (d w : ℕ) (l : Tree K V) (k : K) (v : V) (r : Tree K V)
      → IsBalanced (node d w l k v r)
      → w < 2 ^ 32
      → ((j : K) → Shrunk (get_depth r) (get_weight r) (remove r j))
      → Shrunk d w (remove_found d w l r (remove r))
  unfolding remove_found
  remove_found-Shrunk d w leaf k v r b fits ih = record {
    balanced = b.5;
    depth = omega arith;
    weight = omega arith;
  }
  remove_found-Shrunk d w (node ld lw ll lk lv lr) k v leaf b fits ih = record {
    balanced = b.4;
    depth = omega arith;
    weight = omega arith;
  }
  remove_found-Shrunk d w (node ld lw ll lk lv lr) k v (node rd rw_ rl rk rv rr) b fits ih =
      let r = node rd rw_ rl rk rv rr in
      let (m, mv) = successor rl rk rv in
      fix-Shrunk_right d w (node ld lw ll lk lv lr) m mv r (remove r m) b fits (ih m)

  -- `remove` keeps the balance; the tree shrinks by one level and one node at most.
  pub remove-Shrunk :
      (t : Tree K V) (q : K)
      → IsBalanced t
      → get_weight t < 2 ^ 32
      → Shrunk (get_depth t) (get_weight t) (remove t q)
  unfolding remove
  remove-Shrunk leaf q b fits = record { balanced = tt; depth = omega arith; weight = omega arith }
  remove-Shrunk (node d w l k v r) q b fits = elim (Ordering-cases (o.three_way q k)) [
    | inl e ↦
        rw (e, remove)
          (fix-Shrunk_left d w l k v r (remove l q) b fits (remove-Shrunk l q b.4 (omega arith)))
    | inr (inl e) ↦
        rw (e, remove)
          (remove_found-Shrunk d w l k v r b fits (λ j. remove-Shrunk r j b.5 (omega arith)))
    | inr (inr e) ↦
        rw (e, remove)
          (fix-Shrunk_right d w l k v r (remove r q) b fits (remove-Shrunk r q b.5 (omega arith)))
  ]

  pub depth-assign : (t : Tree K V) (q : K) (x : V) → get_depth (assign t q x) ≡ get_depth t
  unfolding assign
  depth-assign leaf q x = refl
  depth-assign (node d w l k v r) q x = ground arith

  pub weight-assign : (t : Tree K V) (q : K) (x : V) → get_weight (assign t q x) ≡ get_weight t
  unfolding assign
  weight-assign leaf q x = refl
  weight-assign (node d w l k v r) q x = ground arith

  pub assign-IsBalanced : (t : Tree K V) (q : K) (x : V) → IsBalanced t → IsBalanced (assign t q x)
  unfolding assign
  assign-IsBalanced leaf q x b = tt
  assign-IsBalanced (node d w l k v r) q x b = elim (Ordering-cases (o.three_way q k)) [
    | inl e ↦
        rw (e, assign, depth-assign l q x, weight-assign l q x)
          (b.0, b.1, b.2, b.3, assign-IsBalanced l q x b.4, b.5)
    | inr (inl e) ↦ rw (e, assign) b
    | inr (inr e) ↦
        rw (e, assign, depth-assign r q x, weight-assign r q x)
          (b.0, b.1, b.2, b.3, b.4, assign-IsBalanced r q x b.5)
  ]
