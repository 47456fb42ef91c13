-- ===== src/Avl.antt =====
-- src/dsa/avl_locking.hpp: `AVLNode` and `AVLTree`, the tree that `#include "avl.hpp"` of
-- src/dsa/zset.hpp stands for. A `unique_ptr` that is moved in and out is a value in and out. The
-- raw `parent` pointers are written by the code and never read, and are left out; each mutex is
-- taken by one call at a time or is recursive, so the locks leave no trace for one thread.
-- `depth` and `weight` are `uint32_t`, and wrap.
use Prim.Native.Nat.Ordering.{lt, eq, gt}
pub mod Order
pub mod Lookup
pub mod Balance
pub mod Calls
mod Tests
use vector_db.Prelude.{
  ℕ, ◌+◌, ◌%◌, ◌^◌, max, Bool, true, false, Option, none, some, ltb, if◌then◌else◌,
}
use vector_db.Prelude.Order.{Ord}

-- A `unique_ptr<AVLNode>`: null, or `depth`, `weight`, `left`, `key`, `value`, `right`.
pub data Tree {ℓ κ} (K : Type ℓ) (V : Type κ) : Type (ℓ ⊔ κ) where
  leaf : Tree K V
  node : ℕ → ℕ → Tree K V → K → V → Tree K V → Tree K V

module _ {ℓ κ} {K : Type ℓ} {V : Type κ} where
  abbrev pub get_depth : Tree K V → ℕ
  get_depth leaf = 0
  get_depth (node d w l k v r) = d

  abbrev pub get_weight : Tree K V → ℕ
  get_weight leaf = 0
  get_weight (node d w l k v r) = w

  abbrev pub left : Tree K V → Tree K V
  left leaf = leaf
  left (node d w l k v r) = l

  abbrev pub right : Tree K V → Tree K V
  right leaf = leaf
  right (node d w l k v r) = r

  -- `updateNode`, on a node given by its children, key and value.
  abbrev pub update_node : Tree K V → K → V → Tree K V → Tree K V
  update_node l k v r =
      node ((1 + max (get_depth l) (get_depth r)) % 2 ^ 32)
        ((1 + get_weight l + get_weight r) % 2 ^ 32) l k v r

  unfoldable pub rotate_left : Tree K V → Tree K V
  rotate_left leaf = leaf
  rotate_left (node d w l k v leaf) = node d w l k v leaf
  rotate_left (node d w l k v (node d' w' rl rk rv rr)) =
      update_node (update_node l k v rl) rk rv rr

  unfoldable pub rotate_right : Tree K V → Tree K V
  rotate_right leaf = leaf
  rotate_right (node d w leaf k v r) = node d w leaf k v r
  rotate_right (node d w (node d' w' ll lk lv lr) k v r) =
      update_node ll lk lv (update_node lr k v r)

  unfoldable pub fix_left : Tree K V → Tree K V
  unfolding rotate_left rotate_right
  fix_left leaf = leaf
  fix_left (node d w leaf k v r) = node d w leaf k v r
  fix_left (node d w (node d' w' ll lk lv lr) k v r) =
      let l = node d' w' ll lk lv lr in
      let l' = if ltb (get_depth ll) (get_depth lr) then rotate_left l else l in
      rotate_right (node d w l' k v r)

  unfoldable pub fix_right : Tree K V → Tree K V
  unfolding rotate_left rotate_right
  fix_right leaf = leaf
  fix_right (node d w l k v leaf) = node d w l k v leaf
  fix_right (node d w l k v (node d' w' rl rk rv rr)) =
      let r = node d' w' rl rk rv rr in
      let r' = if ltb (get_depth rr) (get_depth rl) then rotate_right r else r in
      rotate_left (node d w l k v r')

  -- `fix` after its `updateNode`.
  unfoldable pub rebalance : Tree K V → Tree K V
  unfolding fix_left fix_right
  rebalance t =
      let l = get_depth (left t) in
      let r = get_depth (right t) in
      if ltb ((r + 1) % 2 ^ 32) l
      then fix_left t
      else if ltb ((l + 1) % 2 ^ 32) r
      then fix_right t
      else t

  unfoldable pub fix : Tree K V → Tree K V
  unfolding rebalance
  fix leaf = leaf
  fix (node d w l k v r) = rebalance (update_node l k v r)

  -- The loop `while (successor->left)`, from the node with these fields.
  unfoldable pub successor : Tree K V → K → V → K × V
  successor leaf k v = (k, v)
  successor (node d w ll lk lv lr) k v = successor ll lk lv

  -- The branch of `remove` that has found the key; `rest` is the call on the right child.
  unfoldable pub remove_found : ℕ → ℕ → Tree K V → Tree K V → (K → Tree K V) → Tree K V
  unfolding fix successor
  remove_found d w leaf r rest = r
  remove_found d w (node ld lw ll lk lv lr) leaf rest = node ld lw ll lk lv lr
  remove_found d w (node ld lw ll lk lv lr) (node rd rw_ rl rk rv rr) rest =
      let (sk, sv) = successor rl rk rv in fix (node d w (node ld lw ll lk lv lr) sk sv (rest sk))

module _ {ℓ κ} {K : Type ℓ} {V : Type κ} ⦃o : Ord K⦄ where
  unfoldable pub insert : Tree K V → K → V → Tree K V
  unfolding fix
  insert leaf q x = node 1 1 leaf q x leaf
  insert (node d w l k v r) q x = elim (o.three_way q k) [
    | lt ↦ fix (node d w (insert l q x) k v r)
    | gt ↦ fix (node d w l k v (insert r q x))
    | eq ↦ node d w l k v r
  ]

  unfoldable pub remove : Tree K V → K → Tree K V
  unfolding fix remove_found
  remove leaf q = leaf
  remove (node d w l k v r) q = elim (o.three_way q k) [
    | lt ↦ fix (node d w (remove l q) k v r)
    | gt ↦ fix (node d w l k v (remove r q))
    | eq ↦ remove_found d w l r (remove r)
  ]

  -- The value of the node that `search` returns.
  unfoldable pub search : Tree K V → K → Option V
  search leaf q = none
  search (node d w l k v r) q = elim (o.three_way q k) [
    | eq ↦ some v
    | lt ↦ search l q
    | gt ↦ search r q
  ]

  -- `existingNode->value = value`, through the pointer that `search` returns.
  unfoldable pub assign : Tree K V → K → V → Tree K V
  assign leaf q x = leaf
  assign (node d w l k v r) q x = elim (o.three_way q k) [
    | eq ↦ node d w l k x r
    | lt ↦ node d w (assign l q x) k v r
    | gt ↦ node d w l k v (assign r q x)
  ]

  unfoldable pub set : Tree K V → K → V → Tree K V
  unfolding search assign insert
  set t q x = elim (search t q) [ some _ ↦ assign t q x | none ↦ insert t q x ]

  unfoldable pub get : Tree K V → K → Option V
  unfolding search
  get t q = search t q

  unfoldable pub del : Tree K V → K → Tree K V
  unfolding remove
  del leaf q = leaf
  del (node d w l k v r) q = remove (node d w l k v r) q

  unfoldable pub exists : Tree K V → K → Bool
  unfolding search
  exists t q = elim (search t q) [ some _ ↦ true | none ↦ false ]
