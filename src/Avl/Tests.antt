-- ===== src/Avl/Tests.antt =====
-- Runs of src/dsa/avl_locking.hpp's tree on small inputs.
use vector_db.Prelude.{
  ℕ, ◌+◌, ◌*◌, ◌^◌, ◌≤◌, ◌≡◌, refl, none, some, List, [], ◌∷◌, length, arith, true, false,
}
use vector_db.Prelude.Order.{nat_ord, bytes_ord}
use vector_db.Avl.{Tree, leaf, node, get_depth, get_weight, set, get, del, exists}
use vector_db.Avl.Lookup.{update}
use vector_db.Avl.Calls.{
  Call, set_call, del_call, run, replay, IsAvl, get-set-del, run_refines, run_logarithmic,
}

-- The insertions of the tests `AVLBalanceLRTest` and after it, then a removal of the root.
abbrev calls : List (Call ℕ ℕ)
calls =
    set_call 3 300
    ∷ set_call 1 100
    ∷ set_call 2 200
    ∷ set_call 5 500
    ∷ set_call 4 400
    ∷ set_call 3 303
    ∷ del_call 2
    ∷ []

sample : Tree ℕ ℕ
unfolding run
sample = run calls leaf

sample_lem :
    sample
    ≡ node 3 4 (node 1 1 leaf 1 100 leaf) 3 303 (node 2 2 (leaf) 4 400 (node 1 1 leaf 5 500 leaf))
unfolding sample
sample_lem = refl

get-set-del_example :
    (get (set (run calls leaf) 4 1) 4 ≡ update (get (run calls leaf)) 4 (some 1) 4)
    × (get (del (run calls leaf) 4) 4 ≡ update (get (run calls leaf)) 4 none 4)
get-set-del_example = get-set-del (run calls leaf) 4 1 4 (run_refines calls (omega arith)).0.ordered

run_refines_example :
    IsAvl (run calls leaf)
    × (get_weight (run calls leaf) ≤ length calls)
    × (get (run calls leaf) ≡ replay calls (λ _. none))
run_refines_example = run_refines calls (omega arith)

run_logarithmic_example : 2 ^ 1 ≤ get_weight (run calls leaf) + 1
run_logarithmic_example = run_logarithmic calls 1 (omega arith) deep
  where
    deep : 2 * 1 ≤ get_depth (run calls leaf)
    deep = unfold run in omega arith

-- Keys are compared byte by byte.
names : Tree (List ℕ) ℕ
unfolding set
names = set (set leaf (b'b' ∷ []) 2) (b'a' ∷ b'z' ∷ []) 1

names_lem : (exists names (b'a' ∷ b'z' ∷ []) ≡ true) × (exists names (b'a' ∷ []) ≡ false)
unfolding names exists
names_lem = (refl, refl)
