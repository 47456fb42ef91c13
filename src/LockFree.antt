-- ===== src/LockFree.antt =====
-- src/dsa/avl_lockfree.hpp: `AVLNode` and `AVLTree` of the lock-free tree, as one thread runs it while no
-- other writes. A `shared_ptr` to a node is the subtree below it. Each compare-exchange then finds the value
-- that was read before it and succeeds; that it never fails spuriously is assumed. `depth` and `weight` are
-- `uint32_t`, and wrap.
use Prim.Native.Nat.Ordering.{lt, eq, gt}
pub mod Entries
pub mod Rotations
pub mod Calls
mod Tests
use vector_db.Prelude.{
  ℕ, ◌+◌, ◌%◌, ◌^◌, max, Bool, true, false, Option, none, some, ltb, leb, if◌then◌else◌,
}
use vector_db.Prelude.Order.{Ord}

-- Null, or `depth`, `weight`, `left`, `key`, `value`, `right`.
pub data Tree {ℓ κ} (K : Type ℓ) (V : Type κ) : Type (ℓ ⊔ κ) where
  null : Tree K V
  node : ℕ → ℕ → Tree K V → K → V → Tree K V → Tree K V

module _ {ℓ κ} {K : Type ℓ} {V : Type κ} where
  abbrev pub get_depth : Tree K V → ℕ
  get_depth null = 0
  get_depth (node d w l k v r) = d

  abbrev pub get_weight : Tree K V → ℕ
  get_weight null = 0
  get_weight (node d w l k v r) = w

  -- `update`, on a node given by its children, key and value.
  abbrev pub update : Tree K V → K → V → Tree K V → Tree K V
  update l k v r =
      node ((1 + max (get_depth l) (get_depth r)) % 2 ^ 32)
        ((1 + get_weight l + get_weight r) % 2 ^ 32) l k v r

  unfoldable pub rotate_left : Tree K V → Tree K V
  rotate_left null = null
  rotate_left (node d w l k v null) = node d w l k v null
  rotate_left (node d w l k v (node d' w' rl rk rv rr)) = update (update l k v rl) rk rv rr

  unfoldable pub rotate_right : Tree K V → Tree K V
  rotate_right null = null
  rotate_right (node d w null k v r) = node d w null k v r
  rotate_right (node d w (node d' w' ll lk lv lr) k v r) = update ll lk lv (update lr k v r)

  -- The inner rotation is made at equal depths too.
  unfoldable pub fix_left : Tree K V → Tree K V
  unfolding rotate_left rotate_right
  fix_left null = null
  fix_left (node d w null k v r) = node d w null k v r
  fix_left (node d w (node d' w' ll lk lv lr) k v r) =
      let left_node = node d' w' ll lk lv lr in
      if leb (get_depth ll) (get_depth lr)
      then rotate_right (node d w (rotate_left left_node) k v r)
      else rotate_right (node d w left_node k v r)

  unfoldable pub fix_right : Tree K V → Tree K V
  unfolding rotate_left rotate_right
  fix_right null = null
  fix_right (node d w l k v null) = node d w l k v null
  fix_right (node d w l k v (node d' w' rl rk rv rr)) =
      let right_node = node d' w' rl rk rv rr in
      if leb (get_depth rr) (get_depth rl)
      then rotate_left (node d w l k v (rotate_right right_node))
      else rotate_left (node d w l k v right_node)

  -- `fix`, after its `update`.
  unfoldable pub rebalance : Tree K V → K → V → Tree K V → Tree K V
  unfolding fix_left fix_right
  rebalance l k v r =
      if ltb ((get_depth r + 1) % 2 ^ 32) (get_depth l)
      then fix_left (update l k v r)
      else if ltb ((get_depth l + 1) % 2 ^ 32) (get_depth r)
      then fix_right (update l k v r)
      else update l k v r

  unfoldable pub fix : Tree K V → Tree K V
  unfolding rebalance
  fix null = null
  fix (node d w l k v r) = rebalance l k v r

  -- The key and the value of the node that the loop over `successor_left` ends at.
  unfoldable pub successor : Tree K V → K → V → K × V
  successor null k v = (k, v)
  successor (node d w ll lk lv lr) k v = successor ll lk lv

  -- The right subtree after its leftmost node is taken out: the parent's pointer is set to the node's
  -- right child, and no node on the way is updated.
  unfoldable pub splice : ℕ → ℕ → Tree K V → K → V → Tree K V → Tree K V
  splice d w null k v r = r
  splice d w (node ld lw ll lk lv lr) k v r = node d w (splice ld lw ll lk lv lr) k v r

  -- The branch of `remove` that has found the key.
  unfoldable pub remove_found : ℕ → ℕ → Tree K V → Tree K V → Tree K V
  unfolding fix successor splice
  remove_found d w null r = r
  remove_found d w (node ld lw ll lk lv lr) null = node ld lw ll lk lv lr
  remove_found d w (node ld lw ll lk lv lr) (node rd rw_ rl rk rv rr) =
      let (sk, sv) = successor rl rk rv in
      fix (node d w (node ld lw ll lk lv lr) sk sv (splice rd rw_ rl rk rv rr))

module _ {ℓ κ} {K : Type ℓ} {V : Type κ} ⦃o : Ord K⦄ where
  unfoldable pub insert : Tree K V → K → V → Tree K V
  unfolding fix
  insert null q x = node 1 1 null q x null
  insert (node d w l k v r) q x = elim (o.three_way q k) [
    | lt ↦ fix (node d w (insert l q x) k v r)
    | gt ↦ fix (node d w l k v (insert r q x))
    | eq ↦ node d w l k x r
  ]

  unfoldable pub remove : Tree K V → K → Tree K V
  unfolding fix remove_found
  remove null q = null
  remove (node d w l k v r) q = elim (o.three_way q k) [
    | lt ↦ fix (node d w (remove l q) k v r)
    | gt ↦ fix (node d w l k v (remove r q))
    | eq ↦ remove_found d w l r
  ]

  -- The value of the node that `search` returns.
  unfoldable pub search : Tree K V → K → Option V
  search null q = none
  search (node d w l k v r) q = elim (o.three_way q k) [
    | eq ↦ some v
    | lt ↦ search l q
    | gt ↦ search r q
  ]

  -- The exchange of `node->value` on the node that `search` returns.
  unfoldable pub assign : Tree K V → K → V → Tree K V
  assign null q x = null
  assign (node d w l k v r) q x = elim (o.three_way q k) [
    | eq ↦ node d w l k x r
    | lt ↦ node d w (assign l q x) k v r
    | gt ↦ node d w l k v (assign r q x)
  ]

  unfoldable pub set : Tree K V → K → V → Tree K V
  unfolding search assign insert
  set t q x = elim (search t q) [ some _ ↦ assign t q x | none ↦ insert t q x ]

  unfoldable pub get : Tree K V → K → Option V
  unfolding search
  get t q = search t q

  unfoldable pub del : Tree K V → K → Tree K V
  unfolding remove
  del null q = null
  del (node d w l k v r) q = remove (node d w l k v r) q

  unfoldable pub exists : Tree K V → K → Bool
  unfolding search
  exists t q = elim (search t q) [ some _ ↦ true | none ↦ false ]
