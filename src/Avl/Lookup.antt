-- ===== src/Avl/Lookup.antt =====
-- What `search` reads in src/dsa/avl_locking.hpp's tree after `insert`, `remove` and an assignment.
use Prim.Native.Nat.Ordering.{lt, eq}
use vector_db.Prelude.{ℕ, Option, none, some, ◌≡◌, refl, arith}
use vector_db.Prelude.Order.{Ord}
use vector_db.Avl.{
  Tree, leaf, node, rotate_left, rotate_right, fix_left, fix_right, rebalance, fix, update_node,
  successor, remove_found, insert, remove, search, assign,
}
use vector_db.Avl.Order.{
  KeysBelow, KeysAbove, IsOrdered, KeysBelow-trans, KeysAbove-trans, insert-IsOrdered,
  remove_found_root, rotate_left-IsOrdered, rotate_right-IsOrdered, remove-IsOrdered,
}
use vector_db.Avl.Order.Keys.{
  Each-rotate_left, Each-rotate_right, Each-successor, Each-insert, Each-remove,
}

module _ {ℓ κ} {K : Type ℓ} {V : Type κ} ⦃o : Ord K⦄ where
  search-rotate_left : (t : Tree K V) (j : K) → IsOrdered t → search (rotate_left t) j ≡ search t j
  unfolding search rotate_left
  search-rotate_left leaf j s = refl
  search-rotate_left (node d w l k v leaf) j s = refl
  search-rotate_left (node d w l k v (node d' w' rl rk rv rr)) j s = ground (
    arith,
    s.1.1,
    o.lt_chain j k rk,
    o.eq_of_compare j k,
    o.flip_lt k rk,
    o.compare_self j,
    o.eq_of_compare j rk,
    o.flip_gt j rk,
    o.flip_gt j k,
    o.flip_lt j k,
    o.flip_lt j rk,
    o.lt_chain k rk j,
  )

  search-rotate_right :
      (t : Tree K V) (j : K) → IsOrdered t → search (rotate_right t) j ≡ search t j
  unfolding search rotate_right
  search-rotate_right leaf j s = refl
  search-rotate_right (node d w leaf k v r) j s = refl
  search-rotate_right (node d w (node d' w' ll lk lv lr) k v r) j s = ground (
    arith,
    s.0.1,
    o.lt_chain j lk k,
    o.eq_of_compare j k,
    o.flip_lt lk k,
    o.compare_self j,
    o.eq_of_compare j lk,
    o.flip_gt j lk,
    o.flip_gt j k,
    o.flip_lt j k,
    o.flip_lt j lk,
    o.lt_chain lk k j,
  )

  search-fix_left : (t : Tree K V) (j : K) → IsOrdered t → search (fix_left t) j ≡ search t j
  unfolding search fix_left
  search-fix_left leaf j s = refl
  search-fix_left (node d w leaf k v r) j s = refl
  search-fix_left (node d w (node d' w' ll lk lv lr) k v r) j s =
      let l = node d' w' ll lk lv lr in
      ground (
        arith,
        search-rotate_right (node d w l k v r) j s,
        search-rotate_left l j s.2,
        search-rotate_right (node d w (rotate_left l) k v r) j
            (Each-rotate_left _ l s.0, s.1, rotate_left-IsOrdered l s.2, s.3),
      )

  search-fix_right : (t : Tree K V) (j : K) → IsOrdered t → search (fix_right t) j ≡ search t j
  unfolding search fix_right
  search-fix_right leaf j s = refl
  search-fix_right (node d w l k v leaf) j s = refl
  search-fix_right (node d w l k v (node d' w' rl rk rv rr)) j s =
      let r = node d' w' rl rk rv rr in
      ground (
        arith,
        search-rotate_left (node d w l k v r) j s,
        search-rotate_right r j s.3,
        search-rotate_left (node d w l k v (rotate_right r)) j
            (s.0, Each-rotate_right _ r s.1, s.2, rotate_right-IsOrdered r s.3),
      )

  -- Rebalancing is invisible to a search.
  pub search-fix : (t : Tree K V) (j : K) → IsOrdered t → search (fix t) j ≡ search t j
  unfolding search fix rebalance
  search-fix leaf j s = refl
  search-fix (node d w l k v r) j s =
      let t = update_node l k v r in ground (arith, search-fix_left t j s, search-fix_right t j s)

  search-KeysBelow : (t : Tree K V) (q : K) → KeysBelow q t → search t q ≡ none
  unfolding search
  search-KeysBelow leaf q b = refl
  search-KeysBelow (node d w l k v r) q b =
      rw (o.flip_lt k q b.1, search) (search-KeysBelow r q b.2)

  search-KeysAbove : (t : Tree K V) (q : K) → KeysAbove q t → search t q ≡ none
  unfolding search
  search-KeysAbove leaf q b = refl
  search-KeysAbove (node d w l k v r) q b = rw (b.1, search) (search-KeysAbove l q b.0)

  search_below : (t : Tree K V) (b q : K) → KeysAbove b t → o.three_way q b ≡ lt → search t q ≡ none
  search_below t b q a h = search-KeysAbove t q (KeysAbove-trans t q b h a)

  search_above : (t : Tree K V) (b q : K) → KeysBelow b t → o.three_way b q ≡ lt → search t q ≡ none
  search_above t b q a h = search-KeysBelow t q (KeysBelow-trans t b q a h)

  -- A finite map's value at `j` after the entry of `q` is replaced.
  abbrev pub update : (K → Option V) → K → Option V → K → Option V
  update f q x j = elim (o.three_way j q) [ eq ↦ x | _ ↦ f j ]

  pub search-assign :
      (t : Tree K V) (q : K) (x y : V) (j : K)
      → search t q ≡ some y
      → search (assign t q x) j ≡ update (search t) q (some x) j
  unfolding search assign
  search-assign leaf q x y j h = ground arith
  search-assign (node d w l k v r) q x y j h = ground (
    arith,
    search-assign l q x y j,
    search-assign r q x y j,
    o.eq_of_compare q k,
    o.eq_of_compare j k,
    o.eq_of_compare j q,
    o.compare_self q,
    o.flip_lt q j,
    o.flip_gt q j,
  )

  pub search-insert :
      (t : Tree K V) (q : K) (x : V) (j : K)
      → IsOrdered t
      → search t q ≡ none
      → search (insert t q x) j ≡ update (search t) q (some x) j
  unfolding search insert
  search-insert leaf q x j s h = ground arith
  search-insert (node d w l k v r) q x j s h = ground (
    arith,
    search-fix (node d w (insert l q x) k v r) j,
    search-fix (node d w l k v (insert r q x)) j,
    search-insert l q x j s.2,
    search-insert r q x j s.3,
    insert-IsOrdered l q x s.2,
    insert-IsOrdered r q x s.3,
    Each-insert (λ y. o.three_way y k ≡ lt) l q x,
    Each-insert (λ y. o.three_way k y ≡ lt) r q x,
    o.flip_gt q k,
    o.eq_of_compare j k,
    o.eq_of_compare j q,
    o.flip_lt q k,
  )

  -- The successor holds the least key of the tree, with its value.
  search-successor :
      (d w : ℕ) (l : Tree K V) (k : K) (v : V) (r : Tree K V)
      → IsOrdered (node d w l k v r)
      → let (m, mv) = successor l k v in search (node d w l k v r) m ≡ some mv
  unfolding search successor
  search-successor d w leaf k v r s = rw (o.compare_self k, search)
  search-successor d w (node ld lw ll lk lv lr) k v r s =
      let m = (successor ll lk lv).0 in
      rw (Each-successor (λ y. o.three_way y k ≡ lt) ll lk lv s.0.0 s.0.1, search)
        (search-successor ld lw ll lk lv lr s.2)

  search_below_successor :
      (d w : ℕ) (l : Tree K V) (k : K) (v : V) (r : Tree K V) (j : K)
      → IsOrdered (node d w l k v r)
      → o.three_way j (successor l k v).0 ≡ lt
      → search (node d w l k v r) j ≡ none
  unfolding search successor
  search_below_successor d w leaf k v r j s h = rw (h, search)
  search_below_successor d w (node ld lw ll lk lv lr) k v r j s h =
      let m = (successor ll lk lv).0 in
      rw
        (
          o.lt_chain j m k h (Each-successor (λ y. o.three_way y k ≡ lt) ll lk lv s.0.0 s.0.1),
          search,
        )
        (search_below_successor ld lw ll lk lv lr j s.2 h)

  -- A search in the tree whose root gave way to its successor.
  search-remove_found :
      (d w : ℕ) (l : Tree K V) (k : K) (v : V) (r : Tree K V) (j : K)
      → IsOrdered (node d w l k v r)
      → ((m : K) → search (remove r m) j ≡ update (search r) m none j)
      → search (remove_found d w l r (remove r)) j ≡ update (search (node d w l k v r)) k none j
  unfolding search remove_found
  search-remove_found d w leaf k v r j s ih =
      ground (arith, o.eq_of_compare j k, search-KeysAbove r k s.1, search_below r k j s.1)
  search-remove_found d w (node ld lw ll lk lv lr) k v leaf j s ih =
      let l = node ld lw ll lk lv lr in
      ground (
        arith,
        o.eq_of_compare j k,
        search-KeysBelow l k s.0,
        search_above l k j s.0,
        o.flip_gt j k,
      )
  search-remove_found d w (node ld lw ll lk lv lr) k v (node rd rw_ rl rk rv rr) j s ih =
      let l = node ld lw ll lk lv lr in
      let r = node rd rw_ rl rk rv rr in
      let (m, mv) = successor rl rk rv in
      let high = Each-successor (λ y. o.three_way k y ≡ lt) rl rk rv s.1.0 s.1.1 in
      rw
        (search-fix (node d w l m mv (remove r m)) j
          (remove_found_root d w l k v rd rw_ rl rk rv rr s (remove-IsOrdered r m s.3)))
        (ground (
          arith,
          ih m,
          high,
          o.lt_chain j k m,
          o.eq_of_compare j k,
          o.eq_of_compare j m,
          o.flip_lt k m,
          search-KeysBelow l k s.0,
          search_above l k j s.0,
          o.flip_gt j k,
          search-successor rd rw_ rl rk rv rr s.3,
          search_below_successor rd rw_ rl rk rv rr j s.3,
        ))

  pub search-remove :
      (t : Tree K V) (q j : K) → IsOrdered t → search (remove t q) j ≡ update (search t) q none j
  unfolding search remove
  search-remove leaf q j s = ground arith
  search-remove (node d w l k v r) q j s = ground (
    arith,
    search-fix (node d w (remove l q) k v r) j,
    search-fix (node d w l k v (remove r q)) j,
    search-remove l q j s.2,
    search-remove r q j s.3,
    remove-IsOrdered l q s.2,
    remove-IsOrdered r q s.3,
    Each-remove (λ y. o.three_way y k ≡ lt) l q s.0,
    Each-remove (λ y. o.three_way k y ≡ lt) r q s.1,
    search-remove_found d w l k v r j s (λ m. search-remove r m j s.3),
    o.flip_gt q k,
    o.eq_of_compare q k,
    o.eq_of_compare j k,
    o.eq_of_compare j q,
    o.flip_lt q k,
  )
