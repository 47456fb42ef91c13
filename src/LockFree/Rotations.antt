-- ===== src/LockFree/Rotations.antt =====
-- The entries of src/dsa/avl_lockfree.hpp's tree, from left to right: no rotation changes them.
use vector_db.Prelude.{
  ℕ, ◌≡◌, refl, sym, ap, ◌∙◌, List, [], ◌∷◌, ◌++◌, arith, append_assoc, append-nil,
}
use vector_db.LockFree.{
  Tree, null, node, update, rotate_left, rotate_right, fix_left, fix_right, rebalance, fix,
  successor, splice, remove_found,
}

module _ {ℓ κ} {K : Type ℓ} {V : Type κ} where
  abbrev pub entries : Tree K V → List (K × V)
  entries null = []
  entries (node d w l k v r) = entries l ++ (k, v) ∷ entries r

  entries-rotate_left : (t : Tree K V) → entries (rotate_left t) ≡ entries t
  unfolding rotate_left
  entries-rotate_left null = refl
  entries-rotate_left (node d w l k v null) = refl
  entries-rotate_left (node d w l k v (node d' w' rl rk rv rr)) =
      append_assoc (entries l) ((k, v) ∷ entries rl) ((rk, rv) ∷ entries rr)

  entries-rotate_right : (t : Tree K V) → entries (rotate_right t) ≡ entries t
  unfolding rotate_right
  entries-rotate_right null = refl
  entries-rotate_right (node d w null k v r) = refl
  entries-rotate_right (node d w (node d' w' ll lk lv lr) k v r) =
      sym (append_assoc (entries ll) ((lk, lv) ∷ entries lr) ((k, v) ∷ entries r))

  entries-fix_left : (t : Tree K V) → entries (fix_left t) ≡ entries t
  unfolding fix_left
  entries-fix_left null = refl
  entries-fix_left (node d w null k v r) = refl
  entries-fix_left (node d w (node d' w' ll lk lv lr) k v r) =
      let l = node d' w' ll lk lv lr in
      let inner = ap (λ z. z ++ (k, v) ∷ entries r) (entries-rotate_left l) in
      ground (
        arith,
        entries-rotate_right (node d w l k v r),
        entries-rotate_right (node d w (rotate_left l) k v r) ∙ inner,
      )

  entries-fix_right : (t : Tree K V) → entries (fix_right t) ≡ entries t
  unfolding fix_right
  entries-fix_right null = refl
  entries-fix_right (node d w l k v null) = refl
  entries-fix_right (node d w l k v (node d' w' rl rk rv rr)) =
      let r = node d' w' rl rk rv rr in
      let inner = ap (λ z. entries l ++ (k, v) ∷ z) (entries-rotate_right r) in
      ground (
        arith,
        entries-rotate_left (node d w l k v r),
        entries-rotate_left (node d w l k v (rotate_right r)) ∙ inner,
      )

  pub entries-fix : (t : Tree K V) → entries (fix t) ≡ entries t
  unfolding fix rebalance
  entries-fix null = refl
  entries-fix (node d w l k v r) =
      ground (arith, entries-fix_left (update l k v r), entries-fix_right (update l k v r))

  entries-splice :
      (d w : ℕ) (l : Tree K V) (k : K) (v : V) (r : Tree K V)
      → successor l k v ∷ entries (splice d w l k v r) ≡ entries (node d w l k v r)
  unfolding successor splice
  entries-splice d w null k v r = refl
  entries-splice d w (node ld lw ll lk lv lr) k v r =
      ap (λ z. z ++ (k, v) ∷ entries r) (entries-splice ld lw ll lk lv lr)

  -- The found node is gone, and nothing else.
  pub entries-remove_found :
      (d w : ℕ) (l r : Tree K V) → entries (remove_found d w l r) ≡ entries l ++ entries r
  unfolding remove_found
  entries-remove_found d w null r = refl
  entries-remove_found d w (node ld lw ll lk lv lr) null = sym (append-nil _)
  entries-remove_found d w (node ld lw ll lk lv lr) (node rd rw_ rl rk rv rr) =
      let l = node ld lw ll lk lv lr in
      let (sk, sv) = successor rl rk rv in
      entries-fix (node d w l sk sv (splice rd rw_ rl rk rv rr))
      ∙ ap (λ z. entries l ++ z) (entries-splice rd rw_ rl rk rv rr)
