-- ===== src/SortedSet/Tests.antt =====
-- Runs of src/dsa/zset.hpp on small inputs.
use vector_db.Prelude.{ℕ, ◌≡◌, List, [], ◌∷◌}
use vector_db.Prelude.Outcome.{fault, relock}
use vector_db.SortedSet.{new_zset}
use vector_db.SortedSet.Calls.{Call, add_call, lookup_call, remove_call, query_call, run, run-new}

abbrev calls : List (Call ℕ)
calls =
    lookup_call (b'a' ∷ [])
    ∷ remove_call (b'a' ∷ [])
    ∷ query_call (b'a' ∷ [])
    ∷ add_call (b'a' ∷ []) 3
    ∷ []

run-new_example : run calls new_zset ≡ fault relock
run-new_example = run-new calls
