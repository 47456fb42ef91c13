-- ===== src/Heap/Tests.antt =====
-- Runs of src/dsa/heap.hpp on small inputs.
use vector_db.Prelude.{ℕ, zero, suc, ◌≡◌, refl, false, [], ◌∷◌, ◌++◌, arith, set, some}
use vector_db.Prelude.Outcome.{ret, fault, out_of_range, ◌>>=◌}
use vector_db.Heap.{HeapItem, BinaryHeap, item, push, update, set_value}
use vector_db.Heap.Order.{IsHeap, Sifted}
use vector_db.Heap.Calls.{push-IsHeap, set_value-update_lem}

abbrev at_cell : ℕ → ℕ → HeapItem
at_cell v ref = record { value = v; position_ref = some ref }

-- The comment's heap [10, 20, 15, 30, 40], each item tracked by the cell of its own number.
abbrev five : BinaryHeap
five = record {
  items = at_cell 10 0 ∷ at_cell 20 1 ∷ at_cell 15 2 ∷ at_cell 30 3 ∷ at_cell 40 4 ∷ [];
  cells = 0 ∷ 1 ∷ 2 ∷ 3 ∷ 4 ∷ 0 ∷ [];
}

five-IsHeap : IsHeap five.items
five-IsHeap zero p q = omega arith
five-IsHeap (suc zero) p q = omega arith
five-IsHeap (suc (suc zero)) p q = omega arith
five-IsHeap (suc (suc (suc zero))) p q = omega arith
five-IsHeap (suc (suc (suc (suc zero)))) p q = omega arith
five-IsHeap (suc (suc (suc (suc (suc c))))) p q = absurd (omega arith)

-- A new least item rises to the root, and the cells follow the items.
push_least :
    push false five (at_cell 5 5)
    ≡ ret (record {
      items =
          at_cell 5 5
          ∷ at_cell 20 1
          ∷ at_cell 10 0
          ∷ at_cell 30 3
          ∷ at_cell 40 4
          ∷ at_cell 15 2
          ∷ [];
      cells = 2 ∷ 1 ∷ 5 ∷ 3 ∷ 4 ∷ 0 ∷ [];
    })
unfolding push
push_least = refl

raise_root :
    (set_value false five 0 35 >>= λ h. update false h 0)
    ≡ ret (record {
      items = at_cell 15 2 ∷ at_cell 20 1 ∷ at_cell 35 0 ∷ at_cell 30 3 ∷ at_cell 40 4 ∷ [];
      cells = 2 ∷ 1 ∷ 0 ∷ 3 ∷ 4 ∷ 0 ∷ [];
    })
unfolding set_value update
raise_root = refl

update_beyond : update false five 5 ≡ fault out_of_range
unfolding update
update_beyond = refl

push-IsHeap_example :
    (h' : BinaryHeap) × (push false five (at_cell 5 5) ≡ ret h')
    × Sifted (five.items ++ at_cell 5 5 ∷ []) h'.items
push-IsHeap_example = push-IsHeap five (at_cell 5 5) five-IsHeap

set_value-update_lem_example :
    (h' : BinaryHeap) × ((set_value false five 0 35 >>= λ h₁. update false h₁ 0) ≡ ret h')
    × Sifted
        (set five.items 0 (record { value = 35; position_ref = (item five 0).position_ref }))
        h'.items
set_value-update_lem_example = set_value-update_lem five 0 35 five-IsHeap (omega arith)
