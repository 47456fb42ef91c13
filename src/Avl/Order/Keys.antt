-- ===== src/Avl/Order/Keys.antt =====
-- The keys of src/dsa/avl_locking.hpp's tree: a predicate on every key is kept by the rotations,
-- `insert`, `remove` and the assignment of a value.
use native.Mathlib.Omega.{arith}
use vector_db.Prelude.{ℕ}
use vector_db.Prelude.Order.{Ord}
use vector_db.Avl.{
  Tree, leaf, node, rotate_left, rotate_right, fix_left, fix_right, rebalance, fix, update_node,
  successor, remove_found, insert, remove, assign,
}

module _ {ℓ κ} {K : Type ℓ} {V : Type κ} where
  -- Every key of the tree satisfies `P`.
  abbrev pub Each {μ} : (K → Type μ) → Tree K V → Type μ
  Each P leaf = Unit
  Each P (node d w l k v r) = Each P l × P k × Each P r

  pub Each-imp {μ ν} :
      {P : K → Type μ} {Q : K → Type ν}
      → ((k : K) → P k → Q k)
      → (t : Tree K V) → Each P t
      → Each Q t
  Each-imp f leaf a = tt
  Each-imp f (node d w l k v r) (pl, pk, pr) = (Each-imp f l pl, f k pk, Each-imp f r pr)

  module _ {μ} (P : K → Type μ) where
    pub Each-rotate_left : (t : Tree K V) → Each P t → Each P (rotate_left t)
    unfolding rotate_left
    Each-rotate_left leaf a = a
    Each-rotate_left (node d w l k v leaf) a = a
    Each-rotate_left (node d w l k v (node d' w' rl rk rv rr)) a = ((a.0, a.1, a.2.0), a.2.1, a.2.2)

    pub Each-rotate_right : (t : Tree K V) → Each P t → Each P (rotate_right t)
    unfolding rotate_right
    Each-rotate_right leaf a = a
    Each-rotate_right (node d w leaf k v r) a = a
    Each-rotate_right (node d w (node d' w' ll lk lv lr) k v r) a =
        (a.0.0, a.0.1, (a.0.2, a.1, a.2))

    Each-fix_left : (t : Tree K V) → Each P t → Each P (fix_left t)
    unfolding fix_left
    Each-fix_left leaf a = a
    Each-fix_left (node d w leaf k v r) a = a
    Each-fix_left (node d w (node d' w' ll lk lv lr) k v r) a =
        let l = node d' w' ll lk lv lr in
        ground (
          arith,
          Each-rotate_right (node d w l k v r) a,
          Each-rotate_right (node d w (rotate_left l) k v r) (Each-rotate_left l a.0, a.1, a.2),
        )

    Each-fix_right : (t : Tree K V) → Each P t → Each P (fix_right t)
    unfolding fix_right
    Each-fix_right leaf a = a
    Each-fix_right (node d w l k v leaf) a = a
    Each-fix_right (node d w l k v (node d' w' rl rk rv rr)) a =
        let r = node d' w' rl rk rv rr in
        ground (
          arith,
          Each-rotate_left (node d w l k v r) a,
          Each-rotate_left (node d w l k v (rotate_right r)) (a.0, a.1, Each-rotate_right r a.2),
        )

    pub Each-fix : (t : Tree K V) → Each P t → Each P (fix t)
    unfolding fix rebalance
    Each-fix leaf a = a
    Each-fix (node d w l k v r) a =
        let t = update_node l k v r in ground (arith, Each-fix_left t a, Each-fix_right t a)

    pub Each-successor : (l : Tree K V) (k : K) (v : V) → Each P l → P k → P (successor l k v).0
    unfolding successor
    Each-successor leaf k v a p = p
    Each-successor (node d w ll lk lv lr) k v a p = Each-successor ll lk lv a.0 a.1

    pub Each-remove_found :
        (d w : ℕ) (l r : Tree K V) (rest : K → Tree K V)
        → ((k : K) → Each P (rest k))
        → Each P l
        → Each P r
        → Each P (remove_found d w l r rest)
    unfolding remove_found
    Each-remove_found d w leaf r rest f a b = b
    Each-remove_found d w (node ld lw ll lk lv lr) leaf rest f a b = a
    Each-remove_found d w (node ld lw ll lk lv lr) (node rd rw_ rl rk rv rr) rest f a b =
        let (sk, sv) = successor rl rk rv in
        Each-fix (node d w (node ld lw ll lk lv lr) sk sv (rest sk))
          (a, Each-successor rl rk rv b.0 b.1, f sk)

  pub Each-apply {μ ν} :
      (P : K → Type μ) (Q : K → Type ν) (t : Tree K V)
      → Each P t
      → Each (λ y. P y → Q y) t
      → Each Q t
  Each-apply P Q leaf a f = tt
  Each-apply P Q (node d w l k v r) a f =
      (Each-apply P Q l a.0 f.0, f.1 a.1, Each-apply P Q r a.2 f.2)

module _ {ℓ κ} {K : Type ℓ} {V : Type κ} ⦃o : Ord K⦄ where
  pub Each-insert {μ} :
      (P : K → Type μ) (t : Tree K V) (q : K) (x : V) → P q → Each P t → Each P (insert t q x)
  unfolding insert
  Each-insert P leaf q x p a = (tt, p, tt)
  Each-insert P (node d w l k v r) q x p a = ground (
    arith,
    Each-fix P (node d w (insert l q x) k v r) (Each-insert P l q x p a.0, a.1, a.2),
    Each-fix P (node d w l k v (insert r q x)) (a.0, a.1, Each-insert P r q x p a.2),
  )

  pub Each-remove {μ} : (P : K → Type μ) (t : Tree K V) (q : K) → Each P t → Each P (remove t q)
  unfolding remove
  Each-remove P leaf q a = tt
  Each-remove P (node d w l k v r) q a = ground (
    arith,
    Each-fix P (node d w (remove l q) k v r) (Each-remove P l q a.0, a.1, a.2),
    Each-fix P (node d w l k v (remove r q)) (a.0, a.1, Each-remove P r q a.2),
    Each-remove_found P d w l r (remove r) (λ (j : K). Each-remove P r j a.2) a.0 a.2,
  )

  pub Each-assign {μ} :
      (P : K → Type μ) (t : Tree K V) (q : K) (x : V) → Each P t → Each P (assign t q x)
  unfolding assign
  Each-assign P leaf q x a = tt
  Each-assign P (node d w l k v r) q x a =
      ground (arith, Each-assign P l q x a.0, Each-assign P r q x a.2)
