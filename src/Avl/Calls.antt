-- ===== src/Avl/Calls.antt =====
-- What a client of src/dsa/avl_locking.hpp's `AVLTree` observes: `set`, `get`, `del` and `exists` over
-- any sequence of calls, against a function from keys to values.

use mathlib.Core.Path.{fun_ext}
use vector_db.Prelude.{
  ℕ, ◌+◌, ◌*◌, ◌^◌, ◌≤◌, ◌<◌, ◌≡◌, refl, Option, none, some, List, [], ◌∷◌, length, arith,
  Option-cases, inl, inr,
}
use vector_db.Prelude.Order.{Ord}
use vector_db.Avl.{Tree, leaf, node, get_depth, get_weight, search, set, get, del}
use vector_db.Avl.Order.{IsOrdered, insert-IsOrdered, assign-IsOrdered, remove-IsOrdered}
use vector_db.Avl.Lookup.{update, search-insert, search-assign, search-remove}
use vector_db.Avl.Balance.{insert-Stretched, remove-Shrunk, assign-IsBalanced, weight-assign}
use vector_db.Avl.Balance.Depths.{IsBalanced, pow-depth-le}

-- `set` or `del`.
pub data Call {ℓ κ} (K : Type ℓ) (V : Type κ) : Type (ℓ ⊔ κ) where
  set_call : K → V → Call K V
  del_call : K → Call K V

module _ {ℓ κ} {K : Type ℓ} {V : Type κ} ⦃o : Ord K⦄ where
  pub record IsAvl (t : Tree K V) : Type ℓ where
    pub ordered : IsOrdered t
    pub balanced : IsBalanced t

  search-set :
      (t : Tree K V) (q : K) (x : V) (j : K)
      → IsOrdered t
      → search (set t q x) j ≡ update (search t) q (some x) j
  unfolding set
  search-set t q x j s = elim (Option-cases (search t q)) [
    | inl e ↦ rw (e, set) (search-insert t q x j s e)
    | inr (y, e) ↦ rw (e, set) (search-assign t q x y j e)
  ]

  search-del :
      (t : Tree K V) (q j : K) → IsOrdered t → search (del t q) j ≡ update (search t) q none j
  unfolding del search
  search-del leaf q j s = ground arith
  search-del (node d w l k v r) q j s = search-remove (node d w l k v r) q j s

  -- In an ordered tree, `set` makes `get` read the new value at its key, whether the key was there
  -- or not, and leaves every other key as it was; `del` makes its key read as absent, and leaves
  -- every other key as it was.
  pub get-set-del :
      (t : Tree K V) (q : K) (x : V) (j : K)
      → IsOrdered t
      → (get (set t q x) j ≡ update (get t) q (some x) j)
        × (get (del t q) j ≡ update (get t) q none j)
  unfolding get
  get-set-del t q x j s = (search-set t q x j s, search-del t q j s)

  set-IsAvl :
      (t : Tree K V) (q : K) (x : V)
      → IsAvl t
      → get_weight t + 1 < 2 ^ 32
      → IsAvl (set t q x) × (get_weight (set t q x) ≤ get_weight t + 1)
  unfolding set
  set-IsAvl t q x a fits = elim (Option-cases (search t q)) [
    | inl e ↦
        rw (e, set)
          (let s = insert-Stretched t q x a.balanced fits in
            (
              record { ordered = insert-IsOrdered t q x a.ordered; balanced = s.balanced },
              s.weight.1,
            ))
    | inr (y, e) ↦
        rw (e, set, weight-assign t q x)
          (
            record {
              ordered = assign-IsOrdered t q x a.ordered;
              balanced = assign-IsBalanced t q x a.balanced;
            },
            omega arith,
          )
  ]

  del-IsAvl :
      (t : Tree K V) (q : K)
      → IsAvl t
      → get_weight t < 2 ^ 32
      → IsAvl (del t q) × (get_weight (del t q) ≤ get_weight t)
  unfolding del
  del-IsAvl leaf q a fits = (a, omega arith)
  del-IsAvl (node d w l k v r) q a fits =
      let t = node d w l k v r in
      let s = remove-Shrunk t q a.balanced fits in
      (record { ordered = remove-IsOrdered t q a.ordered; balanced = s.balanced }, s.weight.0)

  unfoldable pub run : List (Call K V) → Tree K V → Tree K V
  unfolding set del
  run [] t = t
  run (set_call q x ∷ cs) t = run cs (set t q x)
  run (del_call q ∷ cs) t = run cs (del t q)

  -- The same calls, on a function from keys to values.
  unfoldable pub replay : List (Call K V) → (K → Option V) → K → Option V
  replay [] f = f
  replay (set_call q x ∷ cs) f = replay cs (update f q (some x))
  replay (del_call q ∷ cs) f = replay cs (update f q none)

  run_refines_from :
      (cs : List (Call K V)) (t : Tree K V)
      → IsAvl t
      → get_weight t + length cs < 2 ^ 32
      → IsAvl (run cs t)
        × (get_weight (run cs t) ≤ get_weight t + length cs)
        × (search (run cs t) ≡ replay cs (search t))
  unfolding run replay
  run_refines_from [] t a fits = (a, omega arith, refl)
  run_refines_from (set_call q x ∷ cs) t a fits =
      let (kept, size) = set-IsAvl t q x a (omega arith) in
      let (avl, bound, reads) = run_refines_from cs (set t q x) kept (omega arith) in
      (avl, omega arith, rw (← fun_ext (λ j. search-set t q x j a.ordered)) reads)
  run_refines_from (del_call q ∷ cs) t a fits =
      let (kept, size) = del-IsAvl t q a (omega arith) in
      let (avl, bound, reads) = run_refines_from cs (del t q) kept (omega arith) in
      (avl, omega arith, rw (← fun_ext (λ j. search-del t q j a.ordered)) reads)

  -- From the empty tree, any sequence of fewer than `2 ^ 32` calls of `set` and `del` leaves a tree
  -- that is ordered and balanced, whose `depth` and `weight` fields are exact, that holds at most
  -- one node for each call, and that `get` reads as the same calls made on a function.
  pub run_refines :
      (cs : List (Call K V))
      → length cs < 2 ^ 32
      → IsAvl (run cs leaf)
        × (get_weight (run cs leaf) ≤ length cs)
        × (get (run cs leaf) ≡ replay cs (λ _. none))
  unfolding get search
  run_refines cs fits =
      let (avl, bound, reads) =
        run_refines_from cs leaf (record { ordered = tt; balanced = tt }) (omega arith) in
      (avl, omega arith, reads)

  -- After any sequence of fewer than `2 ^ 32` calls from the empty tree, a tree whose root has the
  -- depth `2 n` or more has a weight of at least `2 ^ n - 1`: the depth is logarithmic.
  pub run_logarithmic :
      (cs : List (Call K V)) (n : ℕ)
      → length cs < 2 ^ 32
      → 2 * n ≤ get_depth (run cs leaf)
      → 2 ^ n ≤ get_weight (run cs leaf) + 1
  run_logarithmic cs n fits deep =
      pow-depth-le n (run cs leaf) (run_refines cs fits).0.balanced deep
