-- ===== src/LinkedList/Tests.antt =====
-- src/dsa/list.hpp: a list of two nodes, one of which is unlinked.
use vector_db.Prelude.{ℕ, ◌≡◌, refl, some, List, [], ◌∷◌}
use vector_db.Prelude.Outcome.{ret}
use vector_db.LinkedList.{ListNode, new_node}
use vector_db.LinkedList.Cuts.{
  Call, at_front, at_back, before_node, after_node, unlink_node, list_run, list_call, insert_cut,
  omit_cut, cut_after, cut_before, cons_cut,
}
use vector_db.LinkedList.Calls.{run, run-Shows, Shows}

abbrev nodes : ℕ → ListNode ℕ
nodes p = new_node 0 p

abbrev calls : List Call
calls = at_back 2 ∷ at_front 1 ∷ after_node 1 3 ∷ before_node 1 5 ∷ unlink_node 3 ∷ at_back 4 ∷ []

list_run_of_calls : list_run 0 calls [] ≡ some (5 ∷ 1 ∷ 2 ∷ 4 ∷ [])
unfolding list_run list_call insert_cut omit_cut cut_after cut_before cons_cut
list_run_of_calls = refl

run-Shows_example :
    (after : ℕ → ListNode ℕ) × (run 0 calls nodes ≡ ret after) × Shows after 0 (5 ∷ 1 ∷ 2 ∷ 4 ∷ [])
run-Shows_example =
    run-Shows nodes 0 calls (5 ∷ 1 ∷ 2 ∷ 4 ∷ []) (λ q. (refl, refl)) list_run_of_calls
