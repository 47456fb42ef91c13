-- ===== src/Heap.antt =====
-- src/dsa/heap.hpp: `HeapItem` and `BinaryHeap<uint64_t>` with `std::less`. `position_ref_` points to a
-- `size_t` outside the heap: the model keeps those cells in a list and the pointer as an index into it.
-- A move of an item copies its two fields. `heap_mutex_` is a `std::shared_mutex`: a call says whether
-- the calling thread holds it already.
pub mod Items
pub mod Order
pub mod Up
pub mod Down
pub mod Calls
mod Tests
use vector_db.Prelude.{
  ℕ, zero, suc, ◌+◌, ◌-◌, ◌*◌, ◌/◌, Bool, true, false, ◌&&◌, ◌||◌, Option, none, some, List, [],
  ◌∷◌, ◌++◌, ltb, leb, ◌==◌, if◌then◌else◌, length, get_or, set,
}
use vector_db.Prelude.Outcome.{Outcome, ret, fault, out_of_range, acquire, ◌>>=◌}

pub record HeapItem : Type 0 where
  pub value : ℕ
  pub position_ref : Option ℕ

-- `HeapItem()`
abbrev pub default_item : HeapItem
default_item = record { value = 0; position_ref = none }

pub record BinaryHeap : Type 0 where
  pub items : List HeapItem
  pub cells : List ℕ

abbrev pub item : BinaryHeap → ℕ → HeapItem
item h i = get_or h.items i default_item

abbrev pub parent : ℕ → ℕ
parent i = (i + 1) / 2 - 1

abbrev pub left_child : ℕ → ℕ
left_child i = i * 2 + 1

abbrev pub right_child : ℕ → ℕ
right_child i = i * 2 + 2

-- `if (item.position_ref_) *item.position_ref_ = pos`
abbrev pub track : Option ℕ → ℕ → List ℕ → List ℕ
track none pos cells = cells
track (some ref) pos cells = set cells ref pos

-- `items_[pos] = std::move(x)` and the write through its position reference.
unfoldable pub place : BinaryHeap → ℕ → HeapItem → BinaryHeap
place h pos x = record { items = set h.items pos x; cells = track x.position_ref pos h.cells }

-- The loop of `sift_up`, and the placement after it. The position falls in each round, so as many
-- rounds as the position are enough.
unfoldable pub sift_up_loop : ℕ → HeapItem → BinaryHeap → ℕ → BinaryHeap
unfolding place
sift_up_loop zero temp h pos = place h pos temp
sift_up_loop (suc fuel) temp h pos =
    elim (ltb 0 pos && ltb temp.value (item h (parent pos)).value) [
      | false ↦ place h pos temp
      | true ↦ sift_up_loop fuel temp (place h pos (item h (parent pos))) (parent pos)
    ]

unfoldable pub sift_up : BinaryHeap → ℕ → BinaryHeap
unfolding sift_up_loop
sift_up h pos = sift_up_loop pos (item h pos) h pos

-- `min_pos` of one round of `sift_down`.
unfoldable pub min_pos : HeapItem → BinaryHeap → ℕ → ℕ
min_pos temp h pos =
    let len = length h.items in
    let l = left_child pos in
    let r = right_child pos in
    let lower = if ltb l len && ltb (item h l).value temp.value then l else pos in
    let least = if lower == pos then temp.value else (item h lower).value in
    if ltb r len && ltb (item h r).value least then r else lower

-- The loop of `sift_down`, and the placement after it. The position grows in each round and stays
-- below the length.
unfoldable pub sift_down_loop : ℕ → HeapItem → BinaryHeap → ℕ → BinaryHeap
unfolding min_pos place
sift_down_loop zero temp h pos = place h pos temp
sift_down_loop (suc fuel) temp h pos =
    let next = min_pos temp h pos in
    elim (next == pos) [
      | true ↦ place h pos temp
      | false ↦ sift_down_loop fuel temp (place h pos (item h next)) next
    ]

unfoldable pub sift_down : BinaryHeap → ℕ → BinaryHeap
unfolding sift_down_loop
sift_down h pos = sift_down_loop (length h.items) (item h pos) h pos

unfoldable pub empty : Bool → BinaryHeap → Outcome Bool
empty held h = acquire held (ret (length h.items == 0))

unfoldable pub size : Bool → BinaryHeap → Outcome ℕ
size held h = acquire held (ret (length h.items))

-- `operator[]`, read.
unfoldable pub at : Bool → BinaryHeap → ℕ → Outcome HeapItem
at held h index =
    acquire held (if leb (length h.items) index then fault out_of_range else ret (item h index))

-- `heap_[index].set_value(v)`
unfoldable pub set_value : Bool → BinaryHeap → ℕ → ℕ → Outcome BinaryHeap
unfolding at
set_value held h index v = do
  x ← at held h index
  ret (record h { items = set h.items index (record x { value = v }) })

unfoldable pub push : Bool → BinaryHeap → HeapItem → Outcome BinaryHeap
unfolding sift_up
push held h x =
    acquire held (ret (sift_up (record h { items = h.items ++ x ∷ [] }) (length h.items)))

-- `items_[0]` is copied into the optional. An item can only be moved, so `top` does not compile when it is used:
-- it is read as a copy of the two fields.
unfoldable pub top : Bool → BinaryHeap → Outcome (Option HeapItem)
unfolding empty
top held h =
    acquire held (do none_left ← empty true h; ret (if none_left then none else some (item h 0)))

-- `pop_back` of a vector.
abbrev pub init : List HeapItem → List HeapItem
init [] = []
init (x ∷ []) = []
init (x ∷ y ∷ xs) = x ∷ init (y ∷ xs)

-- The root is taken out and the last item put in its place, unless it was alone.
unfoldable pub take_root : BinaryHeap → ℕ → BinaryHeap
unfolding sift_down
take_root h n =
    if ltb 1 n
    then sift_down (record h { items = init (set h.items 0 (item h (length h.items - 1))) }) 0
    else record h { items = init h.items }

unfoldable pub pop : Bool → BinaryHeap → Outcome (HeapItem × BinaryHeap)
unfolding empty size take_root
pop held h = acquire held (
    empty true h >>= λ none_left.
    if none_left then fault out_of_range else size true h >>= λ n. ret (item h 0, take_root h n))

unfoldable pub pop_back : Bool → BinaryHeap → Outcome BinaryHeap
pop_back held h = acquire held (ret (record h { items = init h.items }))

unfoldable pub update : Bool → BinaryHeap → ℕ → Outcome BinaryHeap
unfolding sift_up sift_down
update held h pos = acquire held (
    if leb (length h.items) pos
    then fault out_of_range
    else (if ltb 0 pos && ltb (item h pos).value (item h (parent pos)).value
        then ret (sift_up h pos)
        else ret (sift_down h pos)))

unfoldable pub swap : Bool → BinaryHeap → ℕ → ℕ → Outcome BinaryHeap
unfolding update
swap held h i j = acquire held (
    if leb (length h.items) i || leb (length h.items) j then fault out_of_range else (do
      let swapped = record h { items = set (set h.items i (item h j)) j (item h i) }
      h₁ ← update true swapped i
      update true h₁ j))

unfoldable pub clear : Bool → BinaryHeap → Outcome BinaryHeap
clear held h = acquire held (ret (record h { items = [] }))
