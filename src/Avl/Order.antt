-- ===== src/Avl/Order.antt =====
-- The search order of src/dsa/avl_locking.hpp's tree, and what keeps it: every rotation, `insert`,
-- `remove` and the assignment of a value.
pub mod Keys
use Prim.Native.Nat.Ordering.{lt}
use mathlib.Core.Path.{◌≡◌, refl, sym}
use native.Mathlib.Omega.{arith}
use vector_db.Prelude.{ℕ, ◌≢◌, inl, inr}
use vector_db.Prelude.Order.{Ord, Ordering-cases}
use vector_db.Avl.{
  Tree, leaf, node, rotate_left, rotate_right, fix_left, fix_right, rebalance, fix, update_node,
  successor, remove_found, insert, remove, assign,
}
use vector_db.Avl.Order.Keys.{
  Each, Each-imp, Each-rotate_left, Each-rotate_right, Each-fix, Each-successor, Each-remove_found,
  Each-insert, Each-remove, Each-apply, Each-assign,
}

lt_ne {ℓ} : {K : Type ℓ} ⦃o : Ord K⦄ (a b : K) → o.three_way a b ≡ lt → a ≢ b
lt_ne ⦃o⦄ a b h e = cc (o.compare_self a)

module _ {ℓ κ} {K : Type ℓ} {V : Type κ} ⦃o : Ord K⦄ where
  abbrev pub KeysBelow : K → Tree K V → Type 0
  KeysBelow b t = Each (λ k. o.three_way k b ≡ lt) t

  abbrev pub KeysAbove : K → Tree K V → Type 0
  KeysAbove b t = Each (λ k. o.three_way b k ≡ lt) t

  -- Keys to the left are smaller, keys to the right larger, everywhere.
  abbrev pub IsOrdered : Tree K V → Type 0
  IsOrdered leaf = Unit
  IsOrdered (node d w l k v r) = KeysBelow k l × KeysAbove k r × IsOrdered l × IsOrdered r

  pub KeysBelow-trans :
      (t : Tree K V) (a b : K) → KeysBelow a t → o.three_way a b ≡ lt → KeysBelow b t
  KeysBelow-trans t a b h p = Each-imp (λ x c. o.lt_chain x a b c p) t h

  pub KeysAbove-trans :
      (t : Tree K V) (a b : K) → o.three_way a b ≡ lt → KeysAbove b t → KeysAbove a t
  KeysAbove-trans t a b p h = Each-imp (λ x c. o.lt_chain a b x p c) t h

  pub rotate_left-IsOrdered : (t : Tree K V) → IsOrdered t → IsOrdered (rotate_left t)
  unfolding rotate_left
  rotate_left-IsOrdered leaf s = s
  rotate_left-IsOrdered (node d w l k v leaf) s = s
  rotate_left-IsOrdered (node d w l k v (node d' w' rl rk rv rr)) (b, a, sl, sr) =
      ((KeysBelow-trans l k rk b a.1, a.1, sr.0), sr.1, (b, a.0, sl, sr.2), sr.3)

  pub rotate_right-IsOrdered : (t : Tree K V) → IsOrdered t → IsOrdered (rotate_right t)
  unfolding rotate_right
  rotate_right-IsOrdered leaf s = s
  rotate_right-IsOrdered (node d w leaf k v r) s = s
  rotate_right-IsOrdered (node d w (node d' w' ll lk lv lr) k v r) (b, a, sl, sr) =
      (sl.0, (sl.1, b.1, KeysAbove-trans r lk k b.1 a), sl.2, (b.2, a, sl.3, sr))

  fix_left-IsOrdered : (t : Tree K V) → IsOrdered t → IsOrdered (fix_left t)
  unfolding fix_left
  fix_left-IsOrdered leaf s = s
  fix_left-IsOrdered (node d w leaf k v r) s = s
  fix_left-IsOrdered (node d w (node d' w' ll lk lv lr) k v r) s =
      let l = node d' w' ll lk lv lr in
      ground (
        arith,
        rotate_right-IsOrdered (node d w l k v r) s,
        rotate_right-IsOrdered (node d w (rotate_left l) k v r)
            (Each-rotate_left _ l s.0, s.1, rotate_left-IsOrdered l s.2, s.3),
      )

  fix_right-IsOrdered : (t : Tree K V) → IsOrdered t → IsOrdered (fix_right t)
  unfolding fix_right
  fix_right-IsOrdered leaf s = s
  fix_right-IsOrdered (node d w l k v leaf) s = s
  fix_right-IsOrdered (node d w l k v (node d' w' rl rk rv rr)) s =
      let r = node d' w' rl rk rv rr in
      ground (
        arith,
        rotate_left-IsOrdered (node d w l k v r) s,
        rotate_left-IsOrdered (node d w l k v (rotate_right r))
            (s.0, Each-rotate_right _ r s.1, s.2, rotate_right-IsOrdered r s.3),
      )

  pub fix-IsOrdered : (t : Tree K V) → IsOrdered t → IsOrdered (fix t)
  unfolding fix rebalance
  fix-IsOrdered leaf s = s
  fix-IsOrdered (node d w l k v r) s =
      let t = update_node l k v r in ground (arith, fix_left-IsOrdered t s, fix_right-IsOrdered t s)

  pub insert-IsOrdered : (t : Tree K V) (q : K) (x : V) → IsOrdered t → IsOrdered (insert t q x)
  unfolding insert
  insert-IsOrdered leaf q x s = (tt, tt, tt, tt)
  insert-IsOrdered (node d w l k v r) q x s = ground (
    arith,
    fix-IsOrdered (node d w (insert l q x) k v r),
    fix-IsOrdered (node d w l k v (insert r q x)),
    insert-IsOrdered l q x s.2,
    insert-IsOrdered r q x s.3,
    Each-insert (λ y. o.three_way y k ≡ lt) l q x,
    Each-insert (λ y. o.three_way k y ≡ lt) r q x,
    o.flip_gt q k,
  )

  -- The successor is the least key to the right; what `remove` leaves there is above it.
  pub KeysAbove-successor :
      (d w : ℕ) (l : Tree K V) (k : K) (v : V) (r : Tree K V)
      → IsOrdered (node d w l k v r)
      → let m = (successor l k v).0 in Each (λ y. (y ≢ m) → o.three_way m y ≡ lt) (node d w l k v r)
  unfolding successor
  KeysAbove-successor d w leaf k v r s = (tt, (λ n. absurd (n refl)), Each-imp (λ y h n. h) r s.1)
  KeysAbove-successor d w (node ld lw ll lk lv lr) k v r s =
      let m = (successor ll lk lv).0 in
      let below = Each-successor (λ y. o.three_way y k ≡ lt) ll lk lv s.0.0 s.0.1 in
      (
        KeysAbove-successor ld lw ll lk lv lr s.2,
        (λ n. below),
        Each-imp (λ y h n. o.lt_chain m k y below h) r s.1,
      )

  KeysBelow-ne : (t : Tree K V) (q : K) → KeysBelow q t → Each (λ y. y ≢ q) t
  KeysBelow-ne t q = Each-imp (λ y h e. lt_ne y q h e) t

  KeysAbove-ne : (t : Tree K V) (q : K) → KeysAbove q t → Each (λ y. y ≢ q) t
  KeysAbove-ne t q = Each-imp (λ y h e. lt_ne q y h (sym e)) t

  module _ (d w : ℕ) (l : Tree K V) (k : K) (v : V) (r : Tree K V)
      (s : IsOrdered (node d w l k v r)) where
    Each-ne-remove_found : Each (λ y. y ≢ k) (remove_found d w l r (remove r))
    Each-ne-remove_found =
        let above = KeysAbove-ne r k s.1 in
        Each-remove_found _ d w l r (remove r) (λ j. Each-remove _ r j above) (KeysBelow-ne l k s.0)
          above

  -- The key is gone, wherever it stood.
  pub Each-ne-remove : (t : Tree K V) (q : K) → IsOrdered t → Each (λ y. y ≢ q) (remove t q)
  unfolding remove
  Each-ne-remove leaf q s = tt
  Each-ne-remove (node d w l k v r) q s = elim (Ordering-cases (o.three_way q k)) [
    | inl e ↦
        rw (e, remove)
          (Each-fix (λ y. y ≢ q) (node d w (remove l q) k v r)
            (
              Each-ne-remove l q s.2,
              (λ e'. lt_ne q k e (sym e')),
              KeysAbove-ne r q (KeysAbove-trans r q k e s.1),
            ))
    | inr (inl e) ↦
        rw (e, remove) (rw (← o.eq_of_compare q k e) at (Each-ne-remove_found d w l k v r s))
    | inr (inr e) ↦
        rw (e, remove)
          (Each-fix (λ y. y ≢ q) (node d w l k v (remove r q))
            (
              KeysBelow-ne l q (KeysBelow-trans l k q s.0 (o.flip_gt q k e)),
              lt_ne k q (o.flip_gt q k e),
              Each-ne-remove r q s.3,
            ))
  ]

  -- The found node's place is taken by its successor, and the order is kept.
  pub remove_found_root :
      (d w : ℕ) (l : Tree K V) (k : K) (v : V) (rd rw_ : ℕ) (rl : Tree K V) (rk : K) (rv : V)
      (rr : Tree K V)
      → IsOrdered (node d w l k v (node rd rw_ rl rk rv rr))
      → IsOrdered (remove (node rd rw_ rl rk rv rr) (successor rl rk rv).0)
      → let (m, mv) = successor rl rk rv in
        IsOrdered (node d w l m mv (remove (node rd rw_ rl rk rv rr) m))
  remove_found_root d w l k v rd rw_ rl rk rv rr s f =
      let r = node rd rw_ rl rk rv rr in
      let m = (successor rl rk rv).0 in
      (
        KeysBelow-trans l k m s.0 (Each-successor (λ y. o.three_way k y ≡ lt) rl rk rv s.1.0 s.1.1),
        Each-apply (λ y. y ≢ m) _ (remove r m) (Each-ne-remove r m s.3)
            (Each-remove _ r m (KeysAbove-successor rd rw_ rl rk rv rr s.3)),
        s.2,
        f,
      )

  remove_found-IsOrdered :
      (d w : ℕ) (l : Tree K V) (k : K) (v : V) (r : Tree K V)
      → IsOrdered (node d w l k v r)
      → ((j : K) → IsOrdered (remove r j))
      → IsOrdered (remove_found d w l r (remove r))
  unfolding remove_found
  remove_found-IsOrdered d w leaf k v r s f = s.3
  remove_found-IsOrdered d w (node ld lw ll lk lv lr) k v leaf s f = s.2
  remove_found-IsOrdered d w (node ld lw ll lk lv lr) k v (node rd rw_ rl rk rv rr) s f =
      let l = node ld lw ll lk lv lr in
      let (m, mv) = successor rl rk rv in
      fix-IsOrdered (node d w l m mv (remove (node rd rw_ rl rk rv rr) m))
        (remove_found_root d w l k v rd rw_ rl rk rv rr s (f m))

  pub remove-IsOrdered : (t : Tree K V) (q : K) → IsOrdered t → IsOrdered (remove t q)
  unfolding remove
  remove-IsOrdered leaf q s = tt
  remove-IsOrdered (node d w l k v r) q s = ground (
    arith,
    fix-IsOrdered (node d w (remove l q) k v r),
    fix-IsOrdered (node d w l k v (remove r q)),
    remove_found-IsOrdered d w l k v r s (λ j. remove-IsOrdered r j s.3),
    remove-IsOrdered l q s.2,
    remove-IsOrdered r q s.3,
    Each-remove (λ y. o.three_way y k ≡ lt) l q s.0,
    Each-remove (λ y. o.three_way k y ≡ lt) r q s.1,
  )

  pub assign-IsOrdered : (t : Tree K V) (q : K) (x : V) → IsOrdered t → IsOrdered (assign t q x)
  unfolding assign
  assign-IsOrdered leaf q x s = tt
  assign-IsOrdered (node d w l k v r) q x s = ground (
    arith,
    assign-IsOrdered l q x s.2,
    assign-IsOrdered r q x s.3,
    Each-assign (λ y. o.three_way y k ≡ lt) l q x s.0,
    Each-assign (λ y. o.three_way k y ≡ lt) r q x s.1,
  )
