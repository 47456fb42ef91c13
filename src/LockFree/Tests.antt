-- ===== src/LockFree/Tests.antt =====
-- Runs of src/dsa/avl_lockfree.hpp on small inputs.
use vector_db.Prelude.{ℕ, ◌≡◌, refl, List, [], ◌∷◌, arith}
use vector_db.Prelude.Order.{nat_ord}
use vector_db.LockFree.{Tree, null, node, set, del, get}
use vector_db.LockFree.Entries.{find, put, erase}
use vector_db.LockFree.Rotations.{entries}
use vector_db.LockFree.Calls.{
  Call, set_call, del_call, run, replay, IsOrdered, set-del-get, entries-run,
}

abbrev calls : List (Call ℕ ℕ)
calls =
    set_call 4 40 ∷ set_call 2 20 ∷ set_call 6 60 ∷ set_call 5 50 ∷ set_call 4 41 ∷ del_call 4 ∷ []

-- The root's place is taken by its successor.
run-calls : entries (run calls null) ≡ (2, 20) ∷ (5, 50) ∷ (6, 60) ∷ []
unfolding run
run-calls = refl

abbrev leaf_at : ℕ → Tree ℕ ℕ
leaf_at k = node 1 1 null k k null

-- A balanced tree whose left child has two children of one depth.
abbrev even : Tree ℕ ℕ
even =
    node 4 8 (node 3 5 (node 2 2 (leaf_at 1) 2 2 null) 4 4 (node 2 2 null 6 6 (leaf_at 7))) 8 8
      (node 2 2 null 10 10 (leaf_at 11))

-- `del` makes the needless inner rotation, and leaves the node of 4 with a left child of depth 2 and no
-- right child.
del_even :
    del even 11
    ≡ node 4 7
        (node 3 3 (node 2 2 (leaf_at 1) 2 2 null) 4 4 null)
        6
        6
        (node 2 3 (leaf_at 7) 8 8 (leaf_at 10))
unfolding del
del_even = refl

set-del-get_example :
    (entries (set even 3 9) ≡ put 3 9 (entries even))
    × (entries (del even 3) ≡ erase 3 (entries even))
    × (get even 3 ≡ find 3 (entries even))
    × IsOrdered (set even 3 9)
    × IsOrdered (del even 3)
set-del-get_example = set-del-get even 3 9 (ground arith)

entries-run_example :
    (entries (run calls null) ≡ replay calls [])
    × IsOrdered (run calls null)
    × (get (run calls null) 5 ≡ find 5 (replay calls []))
entries-run_example = entries-run calls 5
