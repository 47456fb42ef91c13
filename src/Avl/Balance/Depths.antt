-- ===== src/Avl/Balance/Depths.antt =====
-- The `depth` and `weight` fields of src/dsa/avl_locking.hpp: when they are exact and the tree is
-- balanced, and how many nodes a depth takes.
use native.Mathlib.Nat.{pow-suc}
use vector_db.Prelude.{zero, ℕ, suc, ◌+◌, ◌*◌, ◌^◌, ◌≤◌, max, ◌≡◌, arith}
use vector_db.Avl.{Tree, leaf, node, get_depth, get_weight}

module _ {ℓ κ} {K : Type ℓ} {V : Type κ} where
  abbrev pub IsBalanced : Tree K V → Type 0
  IsBalanced leaf = Unit
  IsBalanced (node d w l k v r) =
      (d ≡ 1 + max (get_depth l) (get_depth r))
      × (w ≡ 1 + get_weight l + get_weight r)
      × (get_depth l ≤ get_depth r + 1)
      × (get_depth r ≤ get_depth l + 1)
      × IsBalanced l
      × IsBalanced r

  pub depth-le-weight : (t : Tree K V) → IsBalanced t → get_depth t ≤ get_weight t
  depth-le-weight leaf b = omega arith
  depth-le-weight (node d w l k v r) b = omega (arith, depth-le-weight l b.4, depth-le-weight r b.5)

  -- What a repair promises of a root over children of depths `dl` and `dr` and weights `wl`, `wr`.
  pub record Repaired (dl dr wl wr : ℕ) (t : Tree K V) : Type 0 where
    pub balanced : IsBalanced t
    pub weight : get_weight t ≡ 1 + wl + wr
    pub deep : max dl dr ≤ get_depth t
    pub shallow : get_depth t ≤ 1 + max dl dr
    pub even : dl ≤ dr + 1 → dr ≤ dl + 1 → get_depth t ≡ 1 + max dl dr

  -- A balanced tree of depth `2 n` has at least `2 ^ n - 1` nodes.
  pub pow-depth-le :
      (n : ℕ) (t : Tree K V) → IsBalanced t → 2 * n ≤ get_depth t → 2 ^ n ≤ get_weight t + 1
  pow-depth-le zero t b h = omega arith
  pow-depth-le (suc n) leaf b h = absurd (omega arith)
  pow-depth-le (suc n) (node d w l k v r) b h =
      omega
        (arith, pow-suc 2 n, pow-depth-le n l b.4 (omega arith), pow-depth-le n r b.5 (omega arith))
