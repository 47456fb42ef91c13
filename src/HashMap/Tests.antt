-- ===== src/HashMap/Tests.antt =====
-- Runs of src/dsa/hashtable.hpp on small inputs.
use vector_db.Prelude.{ℕ, ◌≡◌, refl, Option, none, some, List, [], ◌∷◌, zero, suc}
use vector_db.Prelude.Outcome.{ret, fault, relock}
use vector_db.Hash.{string_key}
use vector_db.HashTable
use vector_db.HashTable.{HTable, bit_ceil, new_table}
use vector_db.HashTable.Valid.{fresh, fresh-IsValid, Inserted, stack}
use vector_db.HashTable.Chain.{top}
use vector_db.HashTable.Remove.{Removed, table_refines_stacks}
use vector_db.HashMap
use vector_db.HashMap.{HMap, new, insert, find, remove, clear}
use vector_db.HashMap.Calls.{
  Call, insert_call, find_call, remove_call, clear_call, run, replay, calls_refine_stacks,
}

abbrev a : List ℕ
a = b'a' ∷ []

abbrev b : List ℕ
b = b'b' ∷ []

program : Unit {0}
unfolding run insert find remove clear HashTable.insert HashTable.lookup HashTable.remove
program = tt

-- A second `insert` hides the first value of the key, and `remove` brings it back.
abbrev shadowing : List (Call (List ℕ) ℕ)
shadowing =
    insert_call a 1
    ∷ insert_call b 5
    ∷ insert_call a 2
    ∷ find_call a
    ∷ remove_call a
    ∷ find_call a
    ∷ remove_call a
    ∷ find_call a
    ∷ find_call b
    ∷ clear_call
    ∷ find_call b
    ∷ []

abbrev answers : List (Option ℕ)
answers = some 2 ∷ some 2 ∷ some 1 ∷ some 1 ∷ none ∷ some 5 ∷ none ∷ []

shadowing_lem : run shadowing new ≡ ret answers
unfolding program string_key HashMap.ready_primary HashMap.help_resize
shadowing_lem = refl

abbrev inserts : ℕ → List (Call (List ℕ) ℕ)
inserts zero = []
inserts (suc n) = insert_call (n ∷ []) n ∷ inserts n

-- The thirty-third insertion.
full_lem : run (inserts 33) new ≡ fault relock
unfolding program string_key HashMap.ready_primary HashMap.help_resize HashMap.start_resize
full_lem = refl

calls_refine_stacks_example : run shadowing new ≡ replay shadowing 0 (λ _. [])
calls_refine_stacks_example = calls_refine_stacks shadowing

abbrev start : HTable (List ℕ) ℕ
start = fresh

table_refines_stacks_example :
    ((u : HTable (List ℕ) ℕ) × (HashTable.insert start a 7 ≡ ret u) × Inserted start a 7 u)
    × (HashTable.lookup start a ≡ top (stack start a))
    × Removed start a (HashTable.remove start a)
table_refines_stacks_example = table_refines_stacks start a 7 fresh-IsValid
