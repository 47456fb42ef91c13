-- ===== src/Heap/Order.antt =====
-- The order of src/dsa/heap.hpp's array.
use vector_db.Prelude.{ℕ, zero, suc, ◌≤◌, ◌<◌, ◌≡◌, List, arith, get_or, length}
use vector_db.Heap.{HeapItem, default_item, parent}
use vector_db.Heap.Items.{SameItems}

abbrev pub key : List HeapItem → ℕ → ℕ
key xs i = (get_or xs i default_item).value

-- No item is smaller than its parent.
abbrev pub IsHeap : List HeapItem → Type 0
IsHeap xs = (c : ℕ) → 0 < c → c < length xs → key xs (parent c) ≤ key xs c

-- A heap of the same items.
pub record Sifted (xs ys : List HeapItem) : Type 0 where
  pub ordered : IsHeap ys
  pub same : SameItems ys xs
  pub sized : length ys ≡ length xs

root-le_below :
    (n : ℕ) (xs : List HeapItem) (i : ℕ) → IsHeap xs → i ≤ n → i < length xs → key xs 0 ≤ key xs i
root-le_below zero xs i h p q = let e : i ≡ 0 = omega arith in rw e (omega arith)
root-le_below (suc n) xs zero h p q = omega arith
root-le_below (suc n) xs (suc i) h p q = omega (
  arith,
  h (suc i) (omega arith) q,
  root-le_below n xs (parent (suc i)) h (omega arith) (omega arith),
)

-- The first item of a heap is a least one.
pub root-le : (xs : List HeapItem) (i : ℕ) → IsHeap xs → i < length xs → key xs 0 ≤ key xs i
root-le xs i h q = root-le_below i xs i h (omega arith) q
